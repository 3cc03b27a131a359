-- ===== src/Rpc/Handler/Single/Ways.antt =====
-- The ways through one request.
use Prim.Native.String
use poolbeg.Prelude.{
  ℕ, ◌≡◌, refl, ◌⊎◌, inl, inr, Bool, true, false, List, [], ◌∷◌, Option, none, some, String,
  is_some, negsuc, Option-cases, Bool-cases, arith,
}
use poolbeg.Value.{Value}
use poolbeg.Config.{ChainConfig}
use poolbeg.Rpc.Types.{
  JsonRpcRequest, JsonRpcResponse, error, success, is_method_blocked, is_uncacheable,
  block_ref_is_unfinalized,
}
use poolbeg.Rpc.Codec.{Codec}
use poolbeg.Rpc.Coalescer.{coalesced, left_in_flight, coalesce_or_execute}
use poolbeg.Cache.Redis.{Redis}
use poolbeg.Cache.Keys.{cache_key}
use poolbeg.Cache.Layer
use poolbeg.Upstream.Manager.{
  Forwarded, forwarded, refused, panicked, forward_request, upstream_log_panics,
}
use poolbeg.Upstream.Manager.Failover.{forward_request-quiet}
use poolbeg.Rpc.Handler.{
  World, Setup, Service, failure_text, try_memory_intercept, forward_to_upstream, coalesced_forward,
  serve, resolved, process_single_request, exchange_of,
}

Forwarded-cases :
    (f : Forwarded)
    → ((resp : JsonRpcResponse) × (f ≡ forwarded resp))
      ⊎ (((why : _) × (f ≡ refused why)) ⊎ (f ≡ panicked))
Forwarded-cases (forwarded resp) = inl (resp, refl)
Forwarded-cases (refused why) = inr (inl (why, refl))
Forwarded-cases panicked = inr (inr refl)

pub coalesced-text :
    (codec : Codec) (ks : List String) (key : String) (received : Option String)
    (shared : JsonRpcResponse)
    → coalesced codec ks key received ≡ some shared
    → (text : String) × (received ≡ some text) × (codec.decode_response text ≡ some shared)
unfolding coalesced
coalesced-text codec ks key none shared e = absurd (ground (arith, e))
coalesced-text codec ks key (some text) shared e = (text, refl, ground (arith, e))

pub coalesced-empty :
    (codec : Codec) (ks : List String) (key : String) (received : Option String)
    (shared : JsonRpcResponse)
    → ks ≡ []
    → coalesced codec ks key received ≡ some shared
    → ⊥
unfolding coalesced
coalesced-empty codec [] key received shared h e = ground (arith, e)
coalesced-empty codec (k ∷ ks) key received shared h e = absurd (cc)

pub blocked_id :
    (req : JsonRpcRequest) → (error req.id (negsuc 32600) "Method not allowed").id ≡ req.id
unfolding error
blocked_id req = refl

-- An answer from memory has the request's id.
intercept-id :
    (chain : ChainConfig) (latest : ℕ) (method : String) (id : Value) (resp : JsonRpcResponse)
    → try_memory_intercept chain latest method id ≡ some resp
    → resp.id ≡ id
unfolding try_memory_intercept success
intercept-id chain latest method id resp e = ground arith

quiet_log :
    (codec : Codec) {debug_upstream : Bool}
    → debug_upstream ≡ false
    → (resp : JsonRpcResponse) → upstream_log_panics codec debug_upstream resp ≡ false
unfolding upstream_log_panics
quiet_log codec off resp = rw off refl

module _ (r : Redis) (codec : Codec) (world : World) (setup : Setup) where
  -- A forwarded request is answered under the id, unless `debug_upstream` is set and the log panics.
  pub forward-id :
      (req : JsonRpcRequest) (id : Value) (s : Service r.State)
      → ((setup.server.debug_upstream ≡ true)
          × ((forward_to_upstream r codec world setup req id s).1 ≡ none))
        ⊎ ((resp : JsonRpcResponse) × ((forward_to_upstream r codec world setup req id s).1
              ≡ some resp)
            × (resp.id ≡ id))
  unfolding forward_to_upstream error
  forward-id req id s =
      let x = exchange_of codec world setup s.turn req in
      elim (Forwarded-cases (forward_request x s.manager).1) [
        | inl (resp, e) ↦ inr (record resp { id = id }, rw (e, forward_to_upstream) refl, refl)
        | inr (inl (why, e)) ↦ inr (
          error id (negsuc 32602)
              (String.◌++◌ "upstream error: " (failure_text setup.chain req why)),
          rw (e, forward_to_upstream) refl,
          refl,
        )
        | inr (inr e) ↦ elim (Bool-cases setup.server.debug_upstream) [
          | inl on ↦ inl (on, rw (e, forward_to_upstream) refl)
          | inr off ↦ absurd (forward_request-quiet x s.manager (quiet_log codec off) e)
        ]
      ]

  -- A forwarded request writes to the cache only a response without an error, if the method may be cached.
  abbrev pub Stored : JsonRpcRequest → Service r.State → Service r.State → Type 0
  Stored req s s' =
      (s'.cache ≡ s.cache)
      ⊎ ((resp : JsonRpcResponse) × (is_uncacheable req.method ≡ false)
          × (resp.fault ≡ none)
          × (s'.cache
              ≡ Layer.set r codec setup.policies s.cache setup.chain.chain_id req resp
                  (block_ref_is_unfinalized req setup.chain.finality_depth)))

  fault-cases : (resp : JsonRpcResponse) → (resp.fault ≡ none) ⊎ (is_some resp.fault ≡ true)
  fault-cases resp = elim (Option-cases resp.fault) [
    | inl e ↦ inl e
    | inr (f, e) ↦ inr (ground (arith, e))
  ]

  pub forward-Stored :
      (req : JsonRpcRequest) (id : Value) (s : Service r.State)
      → Stored req s (forward_to_upstream r codec world setup req id s).0
  unfolding forward_to_upstream
  forward-Stored req id s =
      elim (Forwarded-cases
        (forward_request (exchange_of codec world setup s.turn req) s.manager).1) [
          | inr (inl (why, e)) ↦ inl (rw (e, forward_to_upstream))
          | inr (inr e) ↦ inl (rw (e, forward_to_upstream))
          | inl (resp, e) ↦ elim (Bool-cases (is_uncacheable req.method)) [
            | inl u ↦ inl (rw (e, forward_to_upstream) (rw u))
            | inr u ↦ elim (fault-cases resp) [
              | inr g ↦ inl (rw (e, forward_to_upstream) (rw u (rw g)))
              | inl g ↦ inr (resp, u, g, rw (e, forward_to_upstream) (rw u (rw g)))
            ]
          ]
        ]

  pub forward-in_flight :
      (req : JsonRpcRequest) (id : Value) (s : Service r.State)
      → (forward_to_upstream r codec world setup req id s).0.in_flight ≡ s.in_flight
  unfolding forward_to_upstream
  forward-in_flight req id s =
      elim (Forwarded-cases
        (forward_request (exchange_of codec world setup s.turn req) s.manager).1) [
          | inl (resp, e) ↦ rw (e, forward_to_upstream) (ground arith)
          | inr (inl (why, e)) ↦ rw (e, forward_to_upstream)
          | inr (inr e) ↦ rw (e, forward_to_upstream)
        ]

  -- What holds on each way through a request holds of the request.
  module _ (P : Service r.State × Option JsonRpcResponse → Type 0) (s : Service r.State) where
    abbrev pub shared_of : JsonRpcRequest → Option JsonRpcResponse
    shared_of req =
        coalesced codec s.in_flight (cache_key codec setup.chain.chain_id req)
          (world.received s.turn)

    coalesced_forward-elim :
        (req : JsonRpcRequest) (id : Value)
        → ((shared : JsonRpcResponse) → shared_of req ≡ some shared → P (s, some shared))
        → (shared_of req ≡ none
            → P (
              record (forward_to_upstream r codec world setup req id s).0 {
                in_flight =
                    left_in_flight s.in_flight
                      (cache_key codec setup.chain.chain_id req)
                      (forward_to_upstream r codec world setup req id s).1;
              },
              (forward_to_upstream r codec world setup req id s).1,
            ))
        → P (coalesced_forward r codec world setup req id s)
    unfolding coalesced_forward coalesce_or_execute
    coalesced_forward-elim req id shares executes = elim (Option-cases (shared_of req)) [
      | inr (shared, e) ↦ rw (e, coalesced_forward, coalesce_or_execute) (shares shared e)
      | inl e ↦ rw (e, coalesced_forward, coalesce_or_execute) (executes e)
    ]

    -- The conditions under which `serve` has `P`.
    abbrev pub Ways : JsonRpcRequest → Value → Type 0
    Ways req id =
        ((resp : JsonRpcResponse) → P (s, some (record resp { id = id })))
        × ((shared : JsonRpcResponse) → shared_of req ≡ some shared → P (s, some shared))
        × (is_uncacheable req.method ≡ false
            → shared_of req ≡ none
            → P (
              record (forward_to_upstream r codec world setup req id s).0 {
                in_flight =
                    left_in_flight s.in_flight (cache_key codec setup.chain.chain_id req)
                      (forward_to_upstream r codec world setup req id s).1;
              },
              (forward_to_upstream r codec world setup req id s).1,
            ))
        × (is_uncacheable req.method ≡ true → P (forward_to_upstream r codec world setup req id s))

    serve-elim :
        (req : JsonRpcRequest) (id : Value) → Ways req id → P (serve r codec world setup req id s)
    unfolding serve
    serve-elim req id (cached, shares, executes, forwards) =
        elim (Bool-cases (is_uncacheable req.method)) [
          | inl u ↦ rw (u, serve) (forwards u)
          | inr u ↦
              let go = coalesced_forward-elim req id shares (executes u) in
              elim (Option-cases (Layer.get r codec s.cache setup.chain.chain_id req)) [
                | inl e ↦ rw (u, serve) (rw e go)
                | inr (text, e) ↦ elim (Option-cases (codec.decode_response text)) [
                  | inl d ↦ rw (u, serve) (rw e (rw d go))
                  | inr (resp, d) ↦ rw (u, serve) (rw e (rw d (cached resp)))
                ]
              ]
        ]

    pub process-elim :
        (req : JsonRpcRequest)
        → P (s, some (error req.id (negsuc 32600) "Method not allowed"))
        → ((resp : JsonRpcResponse) → resp.id ≡ req.id → P (s, some resp))
        → Ways (resolved r codec world setup s.latest req) req.id
        → P (process_single_request r codec world setup s req)
    unfolding process_single_request
    process-elim req blocked intercepted ways =
        elim (Bool-cases (is_method_blocked req.method setup.server.blocked_methods)) [
          | inl b ↦ rw (b, process_single_request) blocked
          | inr b ↦
              elim (Option-cases (try_memory_intercept setup.chain s.latest req.method req.id)) [
                | inr (resp, e) ↦
                    rw (b, process_single_request)
                      (rw e (
                        intercepted resp
                          (intercept-id setup.chain s.latest req.method req.id resp e)))
                | inl e ↦
                    rw (b, process_single_request)
                      (rw e (serve-elim (resolved r codec world setup s.latest req) req.id ways))
              ]
        ]
