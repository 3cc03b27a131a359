-- ===== src/Rpc/Handler/Whole.antt =====
-- A whole body: a batch is answered request by request.
use poolbeg.Prelude.{
  ◌≤◌, ◌≡◌, ◌≢◌, inl, inr, Option-cases, Bool-cases, none, List, [], some, String, map, length, ltb,
  true, false, arith,
}
use poolbeg.Rpc.Types.{RpcResponse, JsonRpcRequest, JsonRpcResponse, batch as many, batch as asked}
use poolbeg.Rpc.Codec.{Codec}
use poolbeg.Rpc.Batch.Answers.{process_batch-ids}
use poolbeg.Cache.Redis.{Redis}
use poolbeg.Rpc.Handler.{World, Setup, Service, dedup_key, parse, process_logged, handle_rpc}
use poolbeg.Rpc.Handler.Logged.{RpcRequest-cases, process_logged-alone}
use poolbeg.Rpc.Handler.Single.{process_single_request-alone}

module _ (r : Redis) (codec : Codec) (world : World) (setup : Setup) where
  -- With neither `debug_client` nor `debug_upstream` set: a batch within the limit, with no other
  -- request in flight, gets one response for each request, in
  -- order and under the request's id, the duplicates included; nothing panics.
  pub handle_rpc-batch :
      (s : Service r.State) (body : String) (reqs : List JsonRpcRequest)
      → setup.server.debug_client ≡ false
      → setup.server.debug_upstream ≡ false
      → s.in_flight ≡ []
      → parse world body ≡ some (asked reqs)
      → length reqs ≤ setup.server.max_batch_size
      → (resps : List JsonRpcResponse) × ((handle_rpc r codec world setup s body).1
          ≡ some (many resps))
        × (map (λ p. p.id) resps ≡ map (λ q. q.id) reqs)
  unfolding handle_rpc
  handle_rpc-batch s body reqs quiet off alone read fits =
      let (resps, e, ids) =
        process_batch-ids (process_logged r codec world setup) (dedup_key codec setup)
          (λ t. t.in_flight ≡ [])
          (λ t req i. (process_single_request-alone r codec world setup t req off i).0)
          (λ t req i. process_logged-alone r codec world setup quiet off t req i) s reqs alone in
      let within : ltb setup.server.max_batch_size (length reqs) ≡ false = ground arith in
      (resps, rw (read, handle_rpc) (rw within (rw e)), ids)

  -- A batch above the limit is refused as one response, and nothing is processed.
  handle_rpc-too_large :
      (s : Service r.State) (body : String) (reqs : List JsonRpcRequest)
      → parse world body ≡ some (asked reqs)
      → ltb setup.server.max_batch_size (length reqs) ≡ true
      → (handle_rpc r codec world setup s body).0 ≡ s
  unfolding handle_rpc
  handle_rpc-too_large s body reqs read big = rw (read, handle_rpc) (rw big)

  handle_rpc-some :
      (s : Service r.State) (body : String)
      → setup.server.debug_client ≡ false
      → setup.server.debug_upstream ≡ false
      → s.in_flight ≡ []
      → (handle_rpc r codec world setup s body).1 ≢ none
  unfolding handle_rpc
  handle_rpc-some s body quiet off alone bad = elim (RpcRequest-cases (parse world body)) [
    | inl e ↦ let wrong = rw (e, handle_rpc) at bad in absurd (cc)
    | inr (inl (req, e)) ↦
        let (resp, made, _) = process_logged-alone r codec world setup quiet off s req alone in
        let wrong = rw made at (rw (e, handle_rpc) at bad) in absurd (cc)
    | inr (inr (reqs, e)) ↦ elim (Bool-cases (ltb setup.server.max_batch_size (length reqs))) [
      | inl big ↦ let wrong = rw big at (rw (e, handle_rpc) at bad) in absurd (cc)
      | inr fits ↦
          let within : length reqs ≤ setup.server.max_batch_size = ground (arith, fits) in
          let (resps, made, _) = handle_rpc-batch s body reqs quiet off alone e within in
          absurd (cc)
    ]
  ]

  -- With neither switch set and no other request in flight, every body is answered.
  pub handle_rpc-answers :
      (s : Service r.State) (body : String)
      → setup.server.debug_client ≡ false
      → setup.server.debug_upstream ≡ false
      → s.in_flight ≡ []
      → (resp : RpcResponse) × ((handle_rpc r codec world setup s body).1 ≡ some resp)
  handle_rpc-answers s body quiet off alone =
      elim (Option-cases (handle_rpc r codec world setup s body).1) [
        | inr there ↦ there
        | inl bad ↦ absurd (handle_rpc-some s body quiet off alone bad)
      ]
