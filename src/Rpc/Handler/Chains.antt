-- ===== src/Rpc/Handler/Chains.antt =====
-- What the requests on one chain do to the cache of the others.
use poolbeg.Prelude.{◌<◌, String, u64_mod, ltb, length, Bool-cases, inl, inr}
use poolbeg.Rpc.Types.{JsonRpcRequest, block_ref_is_unfinalized}
use poolbeg.Rpc.Codec.{Codec, HashLength}
use poolbeg.Rpc.Batch.Kept.{process_batch-keeps}
use poolbeg.Cache.Redis.{Redis, Laws, Answers}
use poolbeg.Cache.Layer.Chains.{Owned, Isolated, Isolated-refl, Isolated-trans, set-Isolated}
use poolbeg.Rpc.Handler.{
  World, Setup, Service, dedup_key, parse, resolved, process_single_request, process_logged,
  handle_rpc,
}
use poolbeg.Rpc.Handler.Single.{process_single_request-Stored}
use poolbeg.Rpc.Handler.Logged.{RpcRequest-cases}

module _ (r : Redis) (law : Laws r) (up : Answers r) (codec : Codec) (long : HashLength codec)
    (world : World) (setup : Setup) (small : setup.chain.chain_id < u64_mod) where
  process_single_request-Isolated :
      (s : Service r.State) (req : JsonRpcRequest)
      → Owned r setup.chain.chain_id s.cache
      → Isolated r setup.chain.chain_id s.cache
          (process_single_request r codec world setup s req).0.cache
  process_single_request-Isolated s req own =
      let c = setup.chain.chain_id in
      elim (process_single_request-Stored r codec world setup s req) [
        | inl same ↦ rw same (Isolated-refl r c s.cache own)
        | inr (resp, _, _, stored) ↦ rw stored (
            set-Isolated r law up c small codec setup.policies s.cache
              (resolved r codec world setup s.latest req) resp
              (block_ref_is_unfinalized (resolved r codec world setup s.latest req)
                setup.chain.finality_depth)
              long own)
      ]

  -- On a server that answers, and for chain numbers below 2 ^ 64: whatever body comes in on a chain, the
  -- set that tracks its head goes on to list keys of the chain only, and every value and every set under
  -- a key of another chain stays as it was.
  pub handle_rpc-Isolated :
      (s : Service r.State) (body : String)
      → Owned r setup.chain.chain_id s.cache
      → Isolated r setup.chain.chain_id s.cache (handle_rpc r codec world setup s body).0.cache
  unfolding handle_rpc
  handle_rpc-Isolated s body own =
      let c = setup.chain.chain_id in
      let same = Isolated-refl r c s.cache own in
      elim (RpcRequest-cases (parse world body)) [
        | inl e ↦ rw (e, handle_rpc) same
        | inr (inl (req, e)) ↦ rw (e, handle_rpc) (process_single_request-Isolated s req own)
        | inr (inr (reqs, e)) ↦ elim (Bool-cases (ltb setup.server.max_batch_size (length reqs))) [
          | inl big ↦ rw (e, handle_rpc) (rw big same)
          | inr fits ↦
              rw (e, handle_rpc)
                (rw fits (
                  process_batch-keeps (process_logged r codec world setup)
                    (λ t. Isolated r c s.cache t.cache)
                    (λ t req i.
                      Isolated-trans r c s.cache t.cache _ i
                        (λ own1. process_single_request-Isolated t req own1))
                    (dedup_key codec setup) s reqs same))
        ]
      ]
