-- ===== src/Rpc/Handler/Cached.antt =====
-- A request that was answered by an upstream is answered from the cache when it comes again.
use poolbeg.Prelude.{
  ℕ, ◌≡◌, refl, sym, ◌∙◌, ap, subst, Bool, false, List, [], Option, none, some, String,
  Option-cases, inl, inr, arith,
}
use poolbeg.Value.{Value}
use poolbeg.Config.{ChainConfig}
use poolbeg.Rpc.Types.{
  JsonRpcRequest, JsonRpcResponse, is_method_blocked, is_uncacheable, resolve_block_tags,
  block_ref_is_unfinalized,
}
use poolbeg.Rpc.Codec.{Codec}
use poolbeg.Rpc.Coalescer.{coalesced, coalesce_or_execute}
use poolbeg.Cache.Redis.{Redis, Laws, Answers}
use poolbeg.Cache.Policy.{resolve_ttl}
use poolbeg.Cache.Keys.{cache_key, normalize_for_cache}
use poolbeg.Cache.Layer
use poolbeg.Cache.Layer.Stored.{get-set}
use poolbeg.Upstream.Manager.{forwarded, forward_request, latest_block_number}
use poolbeg.Rpc.Handler.{
  World, Setup, Service, try_memory_intercept, forward_to_upstream, coalesced_forward, serve,
  resolved, process_single_request, exchange_of,
}

-- The same request under another id.
abbrev pub renamed : JsonRpcRequest → Value → JsonRpcRequest
renamed req id = record req { id = id }

resolve_block_tags-renamed :
    (req : JsonRpcRequest) (id : Value) (l d : ℕ)
    → resolve_block_tags (renamed req id) l d ≡ renamed (resolve_block_tags req l d) id
unfolding resolve_block_tags
resolve_block_tags-renamed req id l d = ground arith

intercept_renamed :
    (chain : ChainConfig) (latest : ℕ) (method : String) (id id' : Value)
    → try_memory_intercept chain latest method id ≡ none
    → try_memory_intercept chain latest method id' ≡ none
unfolding try_memory_intercept
intercept_renamed chain latest method id id' e = ground arith

resolve_block_tags-method :
    (req : JsonRpcRequest) (l d : ℕ) → (resolve_block_tags req l d).method ≡ req.method
unfolding resolve_block_tags
resolve_block_tags-method req l d = ground arith

coalesced-none :
    (codec : Codec) (ks : List String) (key : String) (received : Option String)
    → ks ≡ []
    → coalesced codec ks key received ≡ none
unfolding coalesced
coalesced-none codec ks key received e = rw e

module _ (r : Redis) (codec : Codec) (world : World) (setup : Setup) where
  resolved-method :
      (latest : ℕ) (req : JsonRpcRequest)
      → (resolved r codec world setup latest req).method ≡ req.method
  unfolding resolved
  resolved-method latest req = elim (Option-cases (latest_block_number latest)) [
    | inl e ↦ rw (e, resolved)
    | inr (n, e) ↦ rw (e, resolved) (resolve_block_tags-method req n setup.chain.finality_depth)
  ]

  resolved-renamed :
      (latest : ℕ) (req : JsonRpcRequest) (id : Value)
      → resolved r codec world setup latest (renamed req id)
        ≡ renamed (resolved r codec world setup latest req) id
  unfolding resolved
  resolved-renamed latest req id = elim (Option-cases (latest_block_number latest)) [
    | inl e ↦ rw (e, resolved)
    | inr (n, e) ↦ rw (e, resolved) (resolve_block_tags-renamed req id n setup.chain.finality_depth)
  ]

  -- A request whose text is in the cache is answered from there, and nothing changes.
  serve-hit :
      (s : Service r.State) (q : JsonRpcRequest) (id : Value) (text : String)
      (resp : JsonRpcResponse)
      → is_uncacheable q.method ≡ false
      → Layer.get r codec s.cache setup.chain.chain_id q ≡ some text
      → codec.decode_response text ≡ some resp
      → serve r codec world setup q id s ≡ (s, some (record resp { id = id }))
  unfolding serve
  serve-hit s q id text resp u e d = rw (u, serve) (rw e (rw d))

  -- A request that is not in the cache goes to the upstreams, alone.
  serve-miss :
      (s : Service r.State) (q : JsonRpcRequest) (id : Value)
      → is_uncacheable q.method ≡ false
      → Layer.get r codec s.cache setup.chain.chain_id q ≡ none
      → s.in_flight ≡ []
      → ((serve r codec world setup q id s).0.cache
          ≡ (forward_to_upstream r codec world setup q id s).0.cache)
        × ((serve r codec world setup q id s).0.latest
            ≡ (forward_to_upstream r codec world setup q id s).0.latest)
  unfolding serve coalesced_forward coalesce_or_execute
  serve-miss s q id u e alone =
      let mine =
        coalesced-none codec s.in_flight (cache_key codec setup.chain.chain_id q)
          (world.received s.turn) alone in
      (
        rw (u, serve) (rw e (rw (mine, coalesced_forward, coalesce_or_execute))),
        rw (u, serve) (rw e (rw (mine, coalesced_forward, coalesce_or_execute))),
      )

  forward-cache :
      (s : Service r.State) (q : JsonRpcRequest) (id : Value) (resp : JsonRpcResponse)
      → is_uncacheable q.method ≡ false
      → (forward_request (exchange_of codec world setup s.turn q) s.manager).1 ≡ forwarded resp
      → resp.fault ≡ none
      → ((forward_to_upstream r codec world setup q id s).0.cache
          ≡ Layer.set r codec setup.policies s.cache setup.chain.chain_id q resp
              (block_ref_is_unfinalized q setup.chain.finality_depth))
        × ((forward_to_upstream r codec world setup q id s).0.latest ≡ s.latest)
  unfolding forward_to_upstream
  forward-cache s q id resp u e fine =
      (rw (e, forward_to_upstream) (rw u (rw fine)), rw (e, forward_to_upstream) (rw u (rw fine)))

  process-serve :
      (s : Service r.State) (req : JsonRpcRequest)
      → is_method_blocked req.method setup.server.blocked_methods ≡ false
      → try_memory_intercept setup.chain s.latest req.method req.id ≡ none
      → process_single_request r codec world setup s req
        ≡ serve r codec world setup (resolved r codec world setup s.latest req) req.id s
  unfolding process_single_request
  process-serve s req b e = rw (b, process_single_request) (rw e)

get-renamed :
    (r : Redis) (codec : Codec) (c : r.State) (n : ℕ) (q : JsonRpcRequest) (id : Value)
    → Layer.get r codec c n (renamed q id) ≡ Layer.get r codec c n q
unfolding Layer.get cache_key normalize_for_cache
get-renamed r codec c n q id = refl

module _ (r : Redis) (law : Laws r) (up : Answers r) (codec : Codec) (world : World)
    (setup : Setup) where
  -- On a server that answers: a request that is neither blocked nor answered from memory, that may be
  -- cached but is not there, and that is sent while none is in flight, is forwarded and answered without
  -- an error; the policies keep the answer, and its text reads back. Then the same request under any id is
  -- answered with what the upstream sent, under that id, and the state stays as it was.
  pub process_single_request-again :
      (s : Service r.State) (req : JsonRpcRequest) (id : Value) (resp : JsonRpcResponse)
      (text : String) (ttl : ℕ)
      → is_method_blocked req.method setup.server.blocked_methods ≡ false
      → try_memory_intercept setup.chain s.latest req.method req.id ≡ none
      → is_uncacheable req.method ≡ false
      → Layer.get r codec s.cache setup.chain.chain_id (resolved r codec world setup s.latest req)
        ≡ none
      → s.in_flight ≡ []
      → (forward_request
          (exchange_of codec world setup s.turn (resolved r codec world setup s.latest req))
          s.manager).1
        ≡ forwarded resp
      → resp.fault ≡ none
      → resolve_ttl setup.policies req.method (
          block_ref_is_unfinalized
            (resolved r codec world setup s.latest req)
            setup.chain.finality_depth)
        ≡ some ttl
      → codec.encode_response resp ≡ some text
      → codec.decode_response text ≡ some resp
      → process_single_request r codec world setup
          (process_single_request r codec world setup s req).0
          (renamed req id)
        ≡ ((process_single_request r codec world setup s req).0, some (record resp { id = id }))
  process_single_request-again s req id resp text ttl b m u missing alone answered fine kept printed
        reads =
      process-serve r codec world setup s1 (renamed req id) b (
        subst (λ n. try_memory_intercept setup.chain n req.method id ≡ none) (sym same_latest)
          (intercept_renamed setup.chain s.latest req.method req.id id m))
      ∙ serve-hit r codec world setup s1 (resolved r codec world setup s1.latest (renamed req id))
          id text resp (rw (resolved-method r codec world setup s1.latest (renamed req id)) u) hit
          reads
    where
      q : JsonRpcRequest
      q = resolved r codec world setup s.latest req

      q_u : is_uncacheable q.method ≡ false
      q_u = rw (resolved-method r codec world setup s.latest req) u

      s1 : Service r.State
      s1 = (process_single_request r codec world setup s req).0

      same_latest : s1.latest ≡ s.latest
      same_latest =
          ap (λ p. p.0.latest) (process-serve r codec world setup s req b m)
          ∙ ((serve-miss r codec world setup s q req.id q_u missing alone).1
              ∙ (forward-cache r codec world setup s q req.id resp q_u answered fine).1)

      same_cache :
          s1.cache
          ≡ Layer.set r codec setup.policies s.cache setup.chain.chain_id q resp
              (block_ref_is_unfinalized q setup.chain.finality_depth)
      same_cache =
          ap (λ p. p.0.cache) (process-serve r codec world setup s req b m)
          ∙ ((serve-miss r codec world setup s q req.id q_u missing alone).0
              ∙ (forward-cache r codec world setup s q req.id resp q_u answered fine).0)

      unfin : Bool
      unfin = block_ref_is_unfinalized q setup.chain.finality_depth

      kept_q : resolve_ttl setup.policies q.method unfin ≡ some ttl
      kept_q =
          subst (λ method. resolve_ttl setup.policies method unfin ≡ some ttl)
            (sym (resolved-method r codec world setup s.latest req)) kept

      again : resolved r codec world setup s1.latest (renamed req id) ≡ renamed q id
      again =
          ap (λ n. resolved r codec world setup n (renamed req id)) same_latest
          ∙ resolved-renamed r codec world setup s.latest req id

      hit :
          Layer.get r codec s1.cache setup.chain.chain_id
            (resolved r codec world setup s1.latest (renamed req id))
          ≡ some text
      hit =
          ap (Layer.get r codec s1.cache setup.chain.chain_id) again
          ∙ (get-renamed r codec s1.cache setup.chain.chain_id q id
              ∙ (ap (λ c. Layer.get r codec c setup.chain.chain_id q) same_cache
                  ∙ get-set r law up codec setup.policies s.cache setup.chain.chain_id q resp unfin
                      ttl text kept_q printed))
