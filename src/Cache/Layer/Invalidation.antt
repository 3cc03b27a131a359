-- ===== src/Cache/Layer/Invalidation.antt =====
-- What `invalidate_head_cache` removes after any writes of unfinalized responses, blocks and logs.
use poolbeg.Prelude.{
  ℕ, ◌≡◌, ◌⊎◌, inl, inr, true, false, List, [], ◌∷◌, none, String, str_eq, eq_iff, eq_refl, arith,
  Option-cases,
}
use poolbeg.Value.{Value}
use poolbeg.Config.{CachePolicy}
use poolbeg.Rpc.Types.{JsonRpcRequest, JsonRpcResponse}
use poolbeg.Rpc.Codec.{Codec, HashLength}
use poolbeg.Cache.Policy.{resolve_ttl}
use poolbeg.Cache.Redis.{Redis, Laws, Answers}
use poolbeg.Cache.Client
use poolbeg.Cache.Client.{delete_set_and_members-value}
use poolbeg.Cache.Keys.{
  cache_key, block_by_number_key, block_by_hash_key, block_logs_key, head_cache_set_key,
  block_by_number_key-ne-head, block_by_hash_key-ne-head, block_logs_key-ne-head, cache_key-ne-head,
}
use poolbeg.Cache.Layer.{set, store, cache_block, cache_logs, invalidate_head_cache}

module _ (r : Redis) (law : Laws r) (up : Answers r) where
  -- The key holds nothing, or the set at `q` lists it.
  abbrev Tracked : String → String → r.State → Type 0
  Tracked q k s = (r.value s k ≡ none) ⊎ (r.is_member s q k ≡ true)

  -- The same, but for the keys `p` and `w`, which were just written.
  abbrev Pending : String → String → String → String → r.State → Type 0
  Pending q p w k s = Tracked q k s ⊎ ((p ≡ k) ⊎ (w ≡ k))

  set-Pending :
      (q p w k text : String) (ttl : ℕ) (s : r.State)
      → str_eq w q ≡ false
      → Tracked q k s ⊎ (p ≡ k)
      → Pending q p w k (Client.set r s w text ttl)
  unfolding Client.set
  set-Pending q p w k text ttl s ne t = ground (
    arith,
    eq_iff w k,
    law.set_value s w text (Client.expiry r ttl) k (up.set_answers s w text (Client.expiry r ttl)),
    law.set_members s w text (Client.expiry r ttl) q k
        (up.set_answers s w text (Client.expiry r ttl)) ne,
  )

  sadd-Tracked :
      (q p k : String) (s : r.State) → Tracked q k s ⊎ (p ≡ k) → Tracked q k (Client.sadd r s q p)
  unfolding Client.sadd
  sadd-Tracked q p k s t = ground (
    arith,
    eq_iff p k,
    eq_refl q,
    law.sadd_value s q p k (up.sadd_answers s q p),
    law.sadd_members s q p q k (up.sadd_answers s q p),
  )

  -- A write whose key is then tracked.
  write_tracks :
      (q w k text : String) (ttl : ℕ) (s : r.State)
      → str_eq w q ≡ false
      → Tracked q k s
      → Tracked q k (Client.sadd r (Client.set r s w text ttl) q w)
  write_tracks q w k text ttl s ne t =
      sadd-Tracked q w k (Client.set r s w text ttl)
        (elim (set-Pending q w w k text ttl s ne (inl t)) [
          | inl a ↦ inl a
          | inr (inl e) ↦ inr e
          | inr (inr e) ↦ inr e
        ])

  -- Two writes, whose keys are then tracked in turn, as in `cache_block`.
  writes_track :
      (q v w k text : String) (a b : ℕ) (s : r.State)
      → str_eq v q ≡ false
      → str_eq w q ≡ false
      → Tracked q k s
      → Tracked q k
          (Client.sadd r (Client.sadd r (Client.set r (Client.set r s v text a) w text b) q v) q w)
  writes_track q v w k text a b s nv nw t =
      sadd-Tracked q w k _ (second (set-Pending q v w k text b _ nw first))
    where
      first : Tracked q k (Client.set r s v text a) ⊎ (v ≡ k)
      first = elim (set-Pending q v v k text a s nv (inl t)) [
        | inl c ↦ inl c
        | inr (inl e) ↦ inr e
        | inr (inr e) ↦ inr e
      ]

      second : {u : r.State} → Pending q v w k u → Tracked q k (Client.sadd r u q v) ⊎ (w ≡ k)
      second {u} (inl c) = inl (sadd-Tracked q v k u (inl c))
      second {u} (inr (inl e)) = inl (sadd-Tracked q v k u (inr e))
      second {u} (inr (inr e)) = inr e

  invalidation_removes :
      (c : ℕ) (k : String) (s : r.State)
      → str_eq (head_cache_set_key c) k ≡ false
      → Tracked (head_cache_set_key c) k s
      → r.value (invalidate_head_cache r s c) k ≡ none
  unfolding invalidate_head_cache
  invalidation_removes c k s ne t =
      rw (delete_set_and_members-value r law up s (head_cache_set_key c) k ne) (ground arith)

-- The writes of unfinalized data: a response to a request, a block of the tracker, its logs.
pub data HeadWrite : Type 0 where
  response : JsonRpcRequest → JsonRpcResponse → HeadWrite
  block : ℕ → String → Value → HeadWrite
  logs : ℕ → Value → HeadWrite

module _ (r : Redis) (codec : Codec) (policies : List CachePolicy) (c : ℕ) where
  unfoldable pub apply_write : r.State → HeadWrite → r.State
  apply_write s (response req resp) = set r codec policies s c req resp true
  apply_write s (block height hash v) = cache_block r codec s c height hash v
  apply_write s (logs height v) = cache_logs r codec s c height v

  unfoldable pub apply_writes : r.State → List HeadWrite → r.State
  apply_writes s [] = s
  apply_writes s (w ∷ ws) = apply_writes (apply_write s w) ws

  module _ (law : Laws r) (up : Answers r) (long : HashLength codec) where
    set-Tracked :
        (k : String) (s : r.State) (req : JsonRpcRequest) (resp : JsonRpcResponse)
        → Tracked r law up (head_cache_set_key c) k s
        → Tracked r law up (head_cache_set_key c) k (set r codec policies s c req resp true)
    unfolding set store
    set-Tracked k s req resp t = elim (Option-cases (resolve_ttl policies req.method true)) [
      | inl e ↦ rw (e, set) t
      | inr (ttl, e) ↦ elim (Option-cases (codec.encode_response resp)) [
        | inl g ↦ rw (e, set) (rw g t)
        | inr (text, g) ↦
            rw (e, set)
              (rw g (
                write_tracks r law up (head_cache_set_key c) (cache_key codec c req) k text ttl s
                  (cache_key-ne-head codec c req long) t))
      ]
    ]

    apply_write-Tracked :
        (k : String) (s : r.State) (w : HeadWrite)
        → Tracked r law up (head_cache_set_key c) k s
        → Tracked r law up (head_cache_set_key c) k (apply_write s w)
    unfolding apply_write cache_block cache_logs
    apply_write-Tracked k s (response req resp) t = set-Tracked k s req resp t
    apply_write-Tracked k s (block height hash v) t =
        writes_track r law up (head_cache_set_key c) (block_by_number_key c height)
          (block_by_hash_key c hash) k (codec.encode_value v) _ _ s
          (block_by_number_key-ne-head c height) (block_by_hash_key-ne-head c hash) t
    apply_write-Tracked k s (logs height v) t =
        write_tracks r law up (head_cache_set_key c) (block_logs_key c height) k
          (codec.encode_value v) _ s (block_logs_key-ne-head c height) t

    apply_writes-Tracked :
        (k : String) (s : r.State) (ws : List HeadWrite)
        → Tracked r law up (head_cache_set_key c) k s
        → Tracked r law up (head_cache_set_key c) k (apply_writes s ws)
    unfolding apply_writes
    apply_writes-Tracked k s [] t = t
    apply_writes-Tracked k s (w ∷ ws) t =
        apply_writes-Tracked k (apply_write s w) ws (apply_write-Tracked k s w t)

    -- On a server that answers, a key that held nothing before any writes of unfinalized responses,
    -- blocks and logs of a chain holds nothing after the chain's head cache is invalidated: nothing
    -- of them outlives a reorganisation.
    pub invalidate_clears :
        (k : String) (s : r.State) (ws : List HeadWrite)
        → str_eq (head_cache_set_key c) k ≡ false
        → r.value s k ≡ none
        → r.value (invalidate_head_cache r (apply_writes s ws) c) k ≡ none
    invalidate_clears k s ws ne empty =
        invalidation_removes r law up c k (apply_writes s ws) ne
          (apply_writes-Tracked k s ws (inl empty))
