-- ===== src/Cache/Layer/Chains.antt =====
-- The cache of each chain apart from that of the others, though all chains share one Redis server.
use poolbeg.Prelude.{
  ℕ, ◌<◌, ◌≡◌, refl, sym, subst, ◌∙◌, ◌≢◌, Bool, true, false, List, [], ◌∷◌, String, str_eq, eq_iff,
  eq_refl, any, u64_mod, Bool-cases, Option-cases, inl, inr, arith,
}
use poolbeg.Value.{Value}
use poolbeg.Config.{CachePolicy}
use poolbeg.Config.Duration.{from_secs}
use poolbeg.Rpc.Types.{JsonRpcRequest, JsonRpcResponse}
use poolbeg.Rpc.Codec.{Codec, HashLength}
use poolbeg.Cache.Redis.{Redis, Laws, Answers}
use poolbeg.Cache.Policy.{resolve_ttl}
use poolbeg.Cache.Client
use poolbeg.Cache.Client.{smembers-is_member}
use poolbeg.Cache.Keys.{
  str_ne, chain_key, cache_key, block_by_number_key, block_by_hash_key, block_logs_key,
  head_cache_set_key, block_by_number_key-ne-head, block_by_hash_key-ne-head,
  block_logs_key-ne-head, cache_key-ne-head,
}
use poolbeg.Cache.Keys.Apart.{chain_key_inj}
use poolbeg.Cache.Layer.{set, store, cache_block, cache_logs, invalidate_head_cache}

-- The key belongs to the chain.
abbrev pub IsKeyOf : ℕ → String → Type 0
IsKeyOf c k = (rest : String) × (k ≡ chain_key c rest)

cache_key-IsKeyOf :
    (codec : Codec) (c : ℕ) (req : JsonRpcRequest) → IsKeyOf c (cache_key codec c req)
unfolding cache_key
cache_key-IsKeyOf codec c req = (_, refl)

block_by_number_key-IsKeyOf : (c n : ℕ) → IsKeyOf c (block_by_number_key c n)
unfolding block_by_number_key
block_by_number_key-IsKeyOf c n = (_, refl)

block_by_hash_key-IsKeyOf : (c : ℕ) (h : String) → IsKeyOf c (block_by_hash_key c h)
unfolding block_by_hash_key
block_by_hash_key-IsKeyOf c h = (_, refl)

block_logs_key-IsKeyOf : (c n : ℕ) → IsKeyOf c (block_logs_key c n)
unfolding block_logs_key
block_logs_key-IsKeyOf c n = (_, refl)

head_cache_set_key-IsKeyOf : (c : ℕ) → IsKeyOf c (head_cache_set_key c)
unfolding head_cache_set_key
head_cache_set_key-IsKeyOf c = (_, refl)

-- Keys of different chains differ.
IsKeyOf-ne :
    (c d : ℕ) (k : String) (rest : String)
    → c < u64_mod
    → d < u64_mod
    → c ≢ d
    → IsKeyOf c k
    → str_eq k (chain_key d rest) ≡ false
IsKeyOf-ne c d k rest h g ne (own, e) =
    str_ne k (chain_key d rest) (λ same. ne (chain_key_inj c d own rest h g (sym e ∙ same)).0)

module _ (r : Redis) where
  -- The set that tracks the head of the chain lists keys of the chain only.
  abbrev pub Owned : ℕ → r.State → Type 0
  Owned c s = (m : String) → r.is_member s (head_cache_set_key c) m ≡ true → IsKeyOf c m

  -- Nothing that is stored or tracked under a key of the chain has changed.
  abbrev pub Untouched : ℕ → r.State → r.State → Type 0
  Untouched d s s' =
      ((k : String) → r.value s' (chain_key d k) ≡ r.value s (chain_key d k))
      × ((k m : String) → r.is_member s' (chain_key d k) m ≡ r.is_member s (chain_key d k) m)

  -- The chain's own set stays in order, and the other chains see nothing.
  abbrev pub Isolated : ℕ → r.State → r.State → Type 0
  Isolated c s s' = Owned c s' × ((d : ℕ) → d < u64_mod → c ≢ d → Untouched d s s')

  pub Isolated-refl : (c : ℕ) (s : r.State) → Owned c s → Isolated c s s
  Isolated-refl c s own = (own, λ d h ne. (λ k. refl, λ k m. refl))

  pub Isolated-trans :
      (c : ℕ) (s t u : r.State) → Isolated c s t → (Owned c t → Isolated c t u) → Isolated c s u
  Isolated-trans c s t u (own, same) next =
      let (own', same') = next own in
      (
        own',
        λ d h ne.
            let (v, m) = same d h ne in
            let (v', m') = same' d h ne in (λ k. v' k ∙ v k, λ k n. m' k n ∙ m k n),
      )

module _ (r : Redis) (law : Laws r) (up : Answers r) (c : ℕ) (small : c < u64_mod) where
  set_key-Isolated :
      (s : r.State) (k v : String) (ttl : ℕ)
      → IsKeyOf c k
      → str_eq k (head_cache_set_key c) ≡ false
      → Owned r c s
      → Isolated r c s (Client.set r s k v ttl)
  unfolding Client.set
  set_key-Isolated s k v ttl mine ne own =
      let px = Client.expiry r ttl in
      let done = up.set_answers s k v px in
      (
        (λ m h. own m (sym (law.set_members s k v px (head_cache_set_key c) m done ne) ∙ h)),
        λ d g other. (
          (λ j.
              let apart = IsKeyOf-ne c d k j small g other mine in
              law.set_value s k v px (chain_key d j) done ∙ rw apart refl),
          λ j m.
              law.set_members s k v px (chain_key d j) m done
                (IsKeyOf-ne c d k j small g other mine),
        ),
      )

  sadd-Isolated :
      (s : r.State) (k : String)
      → IsKeyOf c k
      → Owned r c s
      → Isolated r c s (Client.sadd r s (head_cache_set_key c) k)
  unfolding Client.sadd
  sadd-Isolated s k mine own =
      let q = head_cache_set_key c in
      let done = up.sadd_answers s q k in
      (
        (λ m h. elim (Bool-cases (str_eq k m)) [
          | inl e ↦ subst (IsKeyOf c) ((eq_iff k m).0 e) mine
          | inr e ↦ own m (ground (arith, law.sadd_members s q k q m done, h, e))
        ]),
        λ d g other. (
          (λ j. law.sadd_value s q k (chain_key d j) done),
          λ j m.
              let apart = IsKeyOf-ne c d q j small g other (head_cache_set_key-IsKeyOf c) in
              law.sadd_members s q k (chain_key d j) m done ∙ rw apart refl,
        ),
      )

  del-Isolated :
      (s : r.State) (k : String) → IsKeyOf c k → Owned r c s → Isolated r c s (Client.del r s k)
  unfolding Client.del
  del-Isolated s k mine own =
      let done = up.del_answers s k in
      (
        (λ m h. own m (ground (arith, law.del_members s k (head_cache_set_key c) m done, h))),
        λ d g other. (
          (λ j.
              let apart = IsKeyOf-ne c d k j small g other mine in
              law.del_value s k (chain_key d j) done ∙ rw apart refl),
          λ j m.
              let apart = IsKeyOf-ne c d k j small g other mine in
              law.del_members s k (chain_key d j) m done ∙ rw apart refl,
        ),
      )

  -- A value is stored under a key of the chain, and the key is tracked.
  tracked-Isolated :
      (s : r.State) (k v : String) (ttl : ℕ)
      → IsKeyOf c k
      → str_eq k (head_cache_set_key c) ≡ false
      → Owned r c s
      → Isolated r c s (Client.sadd r (Client.set r s k v ttl) (head_cache_set_key c) k)
  tracked-Isolated s k v ttl mine ne own =
      Isolated-trans r c s (Client.set r s k v ttl) _ (set_key-Isolated s k v ttl mine ne own)
        (λ own1. sadd-Isolated (Client.set r s k v ttl) k mine own1)

  pub cache_logs-Isolated :
      (codec : Codec) (s : r.State) (n : ℕ) (logs : Value)
      → Owned r c s
      → Isolated r c s (cache_logs r codec s c n logs)
  unfolding cache_logs
  cache_logs-Isolated codec s n logs own =
      tracked-Isolated s (block_logs_key c n) (codec.encode_value logs) (from_secs 60)
        (block_logs_key-IsKeyOf c n) (block_logs_key-ne-head c n) own

  pub cache_block-Isolated :
      (codec : Codec) (s : r.State) (n : ℕ) (hash : String) (block : Value)
      → Owned r c s
      → Isolated r c s (cache_block r codec s c n hash block)
  unfolding cache_block
  cache_block-Isolated codec s n hash block own =
      let text = codec.encode_value block in
      let num_key = block_by_number_key c n in
      let hash_key = block_by_hash_key c hash in
      let numbered = block_by_number_key-IsKeyOf c n in
      let hashed = block_by_hash_key-IsKeyOf c hash in
      let s1 = Client.set r s num_key text (from_secs 60) in
      let s2 = Client.set r s1 hash_key text (from_secs 3600) in
      let s3 = Client.sadd r s2 (head_cache_set_key c) num_key in
      Isolated-trans r c s s1 _
        (set_key-Isolated s num_key text (from_secs 60) numbered (block_by_number_key-ne-head c n)
          own)
        (λ own1.
          Isolated-trans r c s1 s2 _
            (set_key-Isolated s1 hash_key text (from_secs 3600) hashed
              (block_by_hash_key-ne-head c hash) own1)
            (λ own2.
              Isolated-trans r c s2 s3 _ (sadd-Isolated s2 num_key numbered own2)
                (λ own3. sadd-Isolated s3 hash_key hashed own3)))

  pub set-Isolated :
      (codec : Codec) (policies : List CachePolicy) (s : r.State) (req : JsonRpcRequest)
      (resp : JsonRpcResponse) (unfin : Bool)
      → HashLength codec
      → Owned r c s
      → Isolated r c s (set r codec policies s c req resp unfin)
  unfolding set store
  set-Isolated codec policies s req resp unfin long own =
      elim (Option-cases (resolve_ttl policies req.method unfin)) [
        | inl e ↦ rw (e, set) (Isolated-refl r c s own)
        | inr (ttl, e) ↦ elim (Option-cases (codec.encode_response resp)) [
          | inl g ↦ rw (e, set) (rw g (Isolated-refl r c s own))
          | inr (text, g) ↦
              let k = cache_key codec c req in
              let mine = cache_key-IsKeyOf codec c req in
              let ne = cache_key-ne-head codec c req long in
              elim (Bool-cases unfin) [
                | inl f ↦
                    rw (e, set) (rw g (rw (f, store) (tracked-Isolated s k text ttl mine ne own)))
                | inr f ↦
                    rw (e, set) (rw g (rw (f, store) (set_key-Isolated s k text ttl mine ne own)))
              ]
        ]
      ]

  del_all-Isolated :
      (ms : List String) (s : r.State)
      → ((m : String) → any (λ n. str_eq n m) ms ≡ true → IsKeyOf c m)
      → Owned r c s
      → Isolated r c s (Client.del_all r s ms)
  unfolding Client.del_all
  del_all-Isolated [] s mine own = Isolated-refl r c s own
  del_all-Isolated (m ∷ ms) s mine own =
      let here : IsKeyOf c m = mine m (ground (arith, eq_refl m)) in
      Isolated-trans r c s (Client.del r s m) _ (del-Isolated s m here own)
        (λ own1. del_all-Isolated ms (Client.del r s m) (λ n h. mine n (ground (arith, h))) own1)

  -- The invalidation of the head of a chain deletes keys of the chain only.
  pub invalidate_head_cache-Isolated :
      (s : r.State) → Owned r c s → Isolated r c s (invalidate_head_cache r s c)
  unfolding invalidate_head_cache Client.delete_set_and_members
  invalidate_head_cache-Isolated s own =
      members (Client.smembers r s (head_cache_set_key c))
        (λ m h. own m (sym (smembers-is_member r law up s (head_cache_set_key c) m) ∙ h))
    where
      members :
          (ms : List String)
          → ((m : String) → any (λ n. str_eq n m) ms ≡ true → IsKeyOf c m)
          → Isolated r c s (Client.delete_members r s (head_cache_set_key c) ms)
      members [] mine = unfold Client.delete_members in Isolated-refl r c s own
      members (m ∷ ms) mine =
          unfold Client.delete_members in
          Isolated-trans r c s (Client.del_all r s (m ∷ ms)) _
            (del_all-Isolated (m ∷ ms) s mine own)
            (λ own1.
              del-Isolated (Client.del_all r s (m ∷ ms)) (head_cache_set_key c)
                (head_cache_set_key-IsKeyOf c) own1)
