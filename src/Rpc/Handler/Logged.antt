-- ===== src/Rpc/Handler/Logged.antt =====
-- What the log of the responses does to the requests.
use poolbeg.Prelude.{
  ◌<◌, ◌≡◌, ◌↔◌, ◌⊎◌, ap, refl, List, [], Bool, true, false, Option, none, some, String,
  Option-cases, subst, sym, inl, inr, and_then, ◌∙◌,
}
use poolbeg.Value.{Value}
use poolbeg.Rpc.Types.{
  JsonRpcRequest, JsonRpcResponse, RpcRequest, RpcResponse, single, batch, single as one,
}
use poolbeg.Rpc.Types.Truncated.{byte_length, IsPrefix, truncate_json_iff}
use poolbeg.Rpc.Codec.{Codec}
use poolbeg.Rpc.Batch.Duplicates.{some_inj}
use poolbeg.Cache.Redis.{Redis}
use poolbeg.Rpc.Handler.{
  World, Setup, Service, log_client_response, logged, parse, process_single_request, process_logged,
  handle_rpc,
}
use poolbeg.Rpc.Handler.Single.{process_single_request-id, process_single_request-alone}

-- The result is too long for the log, and the cut falls inside a character.
abbrev pub IsCutInside : Codec → Value → Type 0
IsCutInside codec result =
    (512 < byte_length (codec.encode_value result))
    × ((p : String) → IsPrefix 512 (codec.encode_value result) p → ⊥)

-- The response whose log line cannot be written.
abbrev pub IsUnloggable : Codec → JsonRpcResponse → Type 0
IsUnloggable codec resp =
    (resp.fault ≡ none)
    × ((result : Value) × (resp.result ≡ some result) × IsCutInside codec result)

pub RpcRequest-cases :
    (o : Option RpcRequest)
    → (o ≡ none)
      ⊎ (((req : JsonRpcRequest) × (o ≡ some (single req)))
          ⊎ ((reqs : List JsonRpcRequest) × (o ≡ some (batch reqs))))
RpcRequest-cases none = inl refl
RpcRequest-cases (some (single req)) = inr (inl (req, refl))
RpcRequest-cases (some (batch reqs)) = inr (inr (reqs, refl))

module _ (codec : Codec) where
  log_client_response_iff :
      (resp : JsonRpcResponse) → (log_client_response codec resp ≡ none) ↔ IsUnloggable codec resp
  unfolding log_client_response
  log_client_response_iff resp = elim (Option-cases resp.fault) [
    | inr (fault, e) ↦ rw (e, log_client_response) ((λ h. absurd (cc)), (λ h. absurd (cc)))
    | inl e ↦ elim (Option-cases resp.result) [
      | inl g ↦ rw (e, log_client_response) (rw g ((λ h. absurd (cc)), (λ h. absurd (cc))))
      | inr (result, g) ↦
          let cut = truncate_json_iff codec result 512 in
          rw (e, log_client_response)
            (rw g (
              (λ h. (refl, (result, refl, cut.0 h))),
              (λ (_, (other, same, inside)).
                  cut.1 (subst (IsCutInside codec) (sym (some_inj same)) inside)),
            ))
    ]
  ]

  logged_iff :
      (debug_client : Bool) (resp : JsonRpcResponse)
      → (logged codec debug_client resp ≡ none) ↔ ((debug_client ≡ true) × IsUnloggable codec resp)
  unfolding logged
  logged_iff false resp = ((λ h. absurd (cc)), (λ (e, _). absurd (cc)))
  logged_iff true resp = elim (Option-cases (log_client_response codec resp)) [
    | inl e ↦ rw (e, logged) ((λ _. (refl, (log_client_response_iff resp).0 e)), (λ _. refl))
    | inr (line, e) ↦
        rw (e, logged)
          (
            (λ h. absurd (cc)),
            (λ (_, bad). let stuck = (log_client_response_iff resp).1 bad in absurd (cc)),
          )
  ]

  logged-quiet :
      {debug_client : Bool} (resp : JsonRpcResponse)
      → debug_client ≡ false
      → logged codec debug_client resp ≡ some resp
  unfolding logged
  logged-quiet resp off = rw off refl

  answered_none :
      (o : Option JsonRpcResponse)
      → (and_then {B = RpcResponse} o (λ resp. some (one resp)) ≡ none) ↔ (o ≡ none)
  answered_none none = ((λ _. refl), (λ _. refl))
  answered_none (some resp) = ((λ h. absurd (cc)), (λ h. absurd (cc)))

module _ (r : Redis) (codec : Codec) (world : World) (setup : Setup) where
  -- Without the two switches and with no other request in flight, a request is answered under its id,
  -- its log included, and leaves none in flight.
  pub process_logged-alone :
      setup.server.debug_client ≡ false
      → setup.server.debug_upstream ≡ false
      → (s : Service r.State) (req : JsonRpcRequest) → s.in_flight ≡ []
      → (resp : JsonRpcResponse) × ((process_logged r codec world setup s req).1 ≡ some resp)
        × (resp.id ≡ req.id)
  process_logged-alone quiet off s req alone =
      let (_, (resp, e, same)) = process_single_request-alone r codec world setup s req off alone in
      (
        resp,
        ap (λ o. and_then o (logged codec setup.server.debug_client)) e
            ∙ logged-quiet codec resp quiet,
        same,
      )

  -- Without `debug_upstream`, on a body that is a single request: `handle_rpc` panics exactly if
  -- `debug_client` is set and the response has no error but a result whose text has more than 512 bytes,
  -- none of whose prefixes has exactly 512.
  pub handle_rpc_panics_iff :
      (s : Service r.State) (body : String) (req : JsonRpcRequest)
      → setup.server.debug_upstream ≡ false
      → parse world body ≡ some (single req)
      → ((handle_rpc r codec world setup s body).1 ≡ none) ↔ (
          (setup.server.debug_client ≡ true)
          × ((resp : JsonRpcResponse) × ((process_single_request r codec world setup s req).1
                ≡ some resp)
              × IsUnloggable codec resp))
  unfolding handle_rpc
  handle_rpc_panics_iff s body req off read =
      elim (process_single_request-id r codec world setup s req) [
        | inl (on, _) ↦ absurd (cc)
        | inr (resp, e, _) ↦
            let log = logged_iff codec setup.server.debug_client resp in
            let out = answered_none codec (logged codec setup.server.debug_client resp) in
            rw (read, handle_rpc)
              (rw e (
                (λ h. let (on, bad) = log.0 (out.0 h) in (on, (resp, refl, bad))),
                (λ (on, (other, same, bad)).
                    out.1 (log.1 (on, subst (IsUnloggable codec) (sym (some_inj same)) bad))),
              ))
      ]
