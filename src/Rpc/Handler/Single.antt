-- ===== src/Rpc/Handler/Single.antt =====
-- One request: whose id the response has, and what it may change.
pub mod Ways
use poolbeg.Prelude.{
  any, eq_refl, ℕ, ◌≡◌, refl, ◌∙◌, ◌⊎◌, inl, inr, true, false, not, List, [], ◌∷◌, Option, none,
  some, String, str_eq, is_some, negsuc, Option-cases, Bool-cases, arith, keep,
}
use poolbeg.Value.{Value}
use poolbeg.Config.{ChainConfig}
use poolbeg.Rpc.Types.{
  JsonRpcRequest, JsonRpcResponse, error, success, is_method_blocked, is_uncacheable,
  block_ref_is_unfinalized,
}
use poolbeg.Rpc.Codec.{Codec}
use poolbeg.Rpc.Coalescer.{coalesced, left_in_flight}
use poolbeg.Cache.Redis.{Redis}
use poolbeg.Cache.Keys.{cache_key}
use poolbeg.Cache.Layer
use poolbeg.Upstream.Manager.{Forwarded, forwarded, refused, forward_request}
use poolbeg.Rpc.Handler.{
  World, Setup, Service, try_memory_intercept, forward_to_upstream, coalesced_forward, serve,
  resolved, process_single_request,
}
use poolbeg.Rpc.Handler.Single.Ways.{
  coalesced-text, coalesced-empty, blocked_id, forward-id, forward-Stored, forward-in_flight,
  process-elim, Stored,
}

module _ (r : Redis) (codec : Codec) (world : World) (setup : Setup) where
  -- There is no response, or it has the id of the request, or it is the text that another task broadcast.
  abbrev HasId : Service r.State → JsonRpcRequest → Option JsonRpcResponse → Type 0
  HasId s req answer =
      ((setup.server.debug_upstream ≡ true) × (answer ≡ none))
      ⊎ ((resp : JsonRpcResponse) × (answer ≡ some resp)
          × ((resp.id ≡ req.id)
              ⊎ ((text : String) × (world.received s.turn ≡ some text)
                  × (codec.decode_response text ≡ some resp))))

  forward-HasId :
      (s : Service r.State) (req q : JsonRpcRequest)
      → HasId s req (forward_to_upstream r codec world setup q req.id s).1
  forward-HasId s req q = elim (forward-id r codec world setup q req.id s) [
    | inl none_there ↦ inl none_there
    | inr (resp, e, same) ↦ inr (resp, e, inl same)
  ]

  pub process_single_request-id :
      (s : Service r.State) (req : JsonRpcRequest)
      → ((setup.server.debug_upstream ≡ true)
          × ((process_single_request r codec world setup s req).1 ≡ none))
        ⊎ ((resp : JsonRpcResponse) × ((process_single_request r codec world setup s req).1
              ≡ some resp)
            × ((resp.id ≡ req.id)
                ⊎ ((text : String) × (world.received s.turn ≡ some text)
                    × (codec.decode_response text ≡ some resp))))
  process_single_request-id s req =
      let q = resolved r codec world setup s.latest req in
      process-elim r codec world setup (λ p. HasId s req p.1) s req
        (inr (_, refl, inl (blocked_id req))) (λ resp e. inr (resp, refl, inl e))
        (
          (λ resp. inr (_, refl, inl refl)),
          (λ shared e. inr (
            shared,
            refl,
            inr (
                coalesced-text codec s.in_flight (cache_key codec setup.chain.chain_id q)
                  (world.received s.turn) shared e),
          )),
          (λ _ _. forward-HasId s req q),
          (λ _. forward-HasId s req q),
        )

  left-empty :
      (ks : List String) (key : String) (resp : JsonRpcResponse) (o : Option JsonRpcResponse)
      → ks ≡ []
      → o ≡ some resp
      → left_in_flight ks key o ≡ []
  unfolding left_in_flight
  left-empty ks key resp o alone e = rw e (rw alone refl)

  -- Answered under its id, with no request in flight.
  abbrev AnsweredAlone : JsonRpcRequest → Service r.State × Option JsonRpcResponse → Type 0
  AnsweredAlone req p =
      (p.0.in_flight ≡ []) × ((resp : JsonRpcResponse) × (p.1 ≡ some resp) × (resp.id ≡ req.id))

  -- Without `debug_upstream` and with no other request in flight, a request leaves none in flight, and
  -- is answered under its id.
  pub process_single_request-alone :
      (s : Service r.State) (req : JsonRpcRequest)
      → setup.server.debug_upstream ≡ false
      → s.in_flight ≡ []
      → ((process_single_request r codec world setup s req).0.in_flight ≡ [])
        × ((resp : JsonRpcResponse) × ((process_single_request r codec world setup s req).1
              ≡ some resp)
            × (resp.id ≡ req.id))
  process_single_request-alone s req off alone =
      let q = resolved r codec world setup s.latest req in
      let (answer, made, same) = sure q in
      process-elim r codec world setup (AnsweredAlone req) s req (alone, (_, refl, blocked_id req))
        (λ resp e. (alone, (resp, refl, e)))
        (
          (λ resp. (alone, (_, refl, refl))),
          (λ shared e. absurd (
              coalesced-empty codec s.in_flight (cache_key codec setup.chain.chain_id q)
                (world.received s.turn) shared alone e)),
          (λ _ _. (
            left-empty s.in_flight (cache_key codec setup.chain.chain_id q) answer _ alone made,
            (answer, made, same),
          )),
          (λ _. (forward-in_flight r codec world setup q req.id s ∙ alone, (answer, made, same))),
        )
    where
      sure :
          (q : JsonRpcRequest)
          → (resp : JsonRpcResponse) × ((forward_to_upstream r codec world setup q req.id s).1
              ≡ some resp)
            × (resp.id ≡ req.id)
      sure q = elim (forward-id r codec world setup q req.id s) [
        | inl (on, _) ↦ absurd (cc)
        | inr there ↦ there
      ]

  -- A request changes the cache at most by storing, under its key, a response without an error, of a
  -- method that may be cached.
  pub process_single_request-Stored :
      (s : Service r.State) (req : JsonRpcRequest)
      → Stored r codec world setup
          (resolved r codec world setup s.latest req)
          s
          (process_single_request r codec world setup s req).0
  process_single_request-Stored s req =
      process-elim r codec world setup
        (λ p. Stored r codec world setup (resolved r codec world setup s.latest req) s p.0) s req
        (inl refl) (λ _ _. inl refl)
        (
          (λ _. inl refl),
          (λ _ _. inl refl),
          (λ _ _.
              forward-Stored r codec world setup (resolved r codec world setup s.latest req) req.id
                s),
          (λ _.
              forward-Stored r codec world setup (resolved r codec world setup s.latest req) req.id
                s),
        )

  -- The request has a response, or its key is in flight.
  abbrev IsLeft : String → Service r.State × Option JsonRpcResponse → Type 0
  IsLeft key p = p.1 ≡ none → any (λ k. str_eq k key) p.0.in_flight ≡ true

  left-any :
      (ks : List String) (key : String) (o : Option JsonRpcResponse)
      → o ≡ none
      → any (λ k. str_eq k key) (left_in_flight ks key o) ≡ true
  unfolding left_in_flight
  left-any ks key o e = rw e (rw (eq_refl key) refl)

  -- A request whose method may be cached, and that panics in the log of its answer, leaves its key in the
  -- map of the requests in flight.
  pub process_single_request-panicked :
      (s : Service r.State) (req : JsonRpcRequest)
      → is_uncacheable (resolved r codec world setup s.latest req).method ≡ false
      → (process_single_request r codec world setup s req).1 ≡ none
      → any
          (λ k.
            str_eq k
              (cache_key codec setup.chain.chain_id (resolved r codec world setup s.latest req)))
          (process_single_request r codec world setup s req).0.in_flight
        ≡ true
  process_single_request-panicked s req cached =
      let q = resolved r codec world setup s.latest req in
      let key = cache_key codec setup.chain.chain_id q in
      process-elim r codec world setup (IsLeft key) s req (λ h. absurd (cc))
        (λ resp e h. absurd (cc))
        (
          (λ resp h. absurd (cc)),
          (λ shared e h. absurd (cc)),
          (λ _ _ h. left-any s.in_flight key _ h),
          (λ other h. absurd (cc)),
        )
