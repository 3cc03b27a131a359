-- ===== src/Server/Running/Chains.antt =====
-- The chains of a server do not meet in the cache.
use poolbeg.Prelude.{
  ℕ, ◌<◌, ◌≡◌, refl, subst, sym, ◌∙◌, ◌≢◌, ◌⊎◌, inl, inr, List, [], ◌∷◌, some, String, u64_mod,
  get_elem?, All, Option-cases,
}
use native.Mathlib.Decide.{ℕ_discrete}
use poolbeg.Config.{Config, ChainConfig}
use poolbeg.Rpc.Codec.{Codec, HashLength}
use poolbeg.Rpc.Handler.{World}
use poolbeg.Rpc.Handler.Chains.{handle_rpc-Isolated}
use poolbeg.Cache.Redis.{Redis, Laws, Answers}
use poolbeg.Cache.Keys.{head_cache_set_key}
use poolbeg.Cache.Layer.Chains.{Owned, Untouched, Isolated}
use poolbeg.Upstream.Tracker.{Poll}
use poolbeg.Upstream.Tracker.Chains.{poll-Isolated}
use poolbeg.Server.Running.{
  Running, Step, body, round, service_of, tracker_of, setup_of, answer_body, follow, step, steps,
}

-- The chain that a step is on.
abbrev pub index_of : Step → ℕ
index_of (body idx text) = idx
index_of (round idx x) = idx

module _ (r : Redis) where
  -- The sets of all chains list their own keys only.
  abbrev pub AllOwned : r.State → Type 0
  AllOwned s = (d : ℕ) → d < u64_mod → Owned r d s

  untouched : (d : ℕ) (s : r.State) → Untouched r d s s
  untouched d s = (λ k. refl, λ k m. refl)

  Untouched-trans :
      (d : ℕ) (s t u : r.State) → Untouched r d s t → Untouched r d t u → Untouched r d s u
  Untouched-trans d s t u (v, m) (v', m') = (λ k. v' k ∙ v k, λ k n. m' k n ∙ m k n)

  Isolated-AllOwned : (c : ℕ) (s s' : r.State) → Isolated r c s s' → AllOwned s → AllOwned s'
  unfolding head_cache_set_key
  Isolated-AllOwned c s s' (own, others) all d h = elim (ℕ_discrete c d) [
    | yes e ↦ subst (λ k. Owned r k s') e own
    | no ne ↦ λ m there. all d h m (sym ((others d h ne).1 "head_cache" m) ∙ there)
  ]

module _ (r : Redis) (law : Laws r) (up : Answers r) (codec : Codec) (long : HashLength codec)
    (world : ℕ → World) (config : Config)
    (small : (idx : ℕ) (chain : ChainConfig)
      → get_elem? config.chains idx ≡ some chain
      → chain.chain_id < u64_mod) where
  -- A step does nothing to the cache, or is a step on a chain of the configuration that keeps to itself.
  abbrev KeepsTo : ℕ → r.State → r.State → Type 0
  KeepsTo idx s s' =
      (s' ≡ s)
      ⊎ ((chain : ChainConfig) × (get_elem? config.chains idx ≡ some chain)
          × Isolated r chain.chain_id s s')

  answer_body-KeepsTo :
      (s : Running r.State) (idx : ℕ) (text : String)
      → AllOwned r s.cache
      → KeepsTo idx s.cache (answer_body r codec world config s idx text).0.cache
  unfolding answer_body
  answer_body-KeepsTo s idx text all = elim (Option-cases (get_elem? config.chains idx)) [
    | inl e ↦ rw (e, answer_body) (inl refl)
    | inr (chain, e) ↦ elim (Option-cases (get_elem? s.chains idx)) [
      | inl g ↦ rw (e, answer_body) (rw g (inl refl))
      | inr (ch, g) ↦
          let less = small idx chain e in
          let kept =
            handle_rpc-Isolated r law up codec long (world idx)
              (setup_of r codec world config chain) less (service_of s ch) text
              (all chain.chain_id less) in
          rw (e, answer_body) (rw g (inr (chain, refl, kept)))
    ]
  ]

  follow-KeepsTo :
      (s : Running r.State) (idx : ℕ) (x : Poll)
      → AllOwned r s.cache
      → KeepsTo idx s.cache (follow r codec world config s idx x).0.cache
  unfolding follow
  follow-KeepsTo s idx x all = elim (Option-cases (get_elem? config.chains idx)) [
    | inl e ↦ rw (e, follow) (inl refl)
    | inr (chain, e) ↦ elim (Option-cases (get_elem? s.chains idx)) [
      | inl g ↦ rw (e, follow) (rw g (inl refl))
      | inr (ch, g) ↦
          let less = small idx chain e in
          let kept =
            poll-Isolated r law up codec chain.chain_id less chain.strategy x (tracker_of s ch)
              (all chain.chain_id less) in
          rw (e, follow) (rw g (inr (chain, refl, kept)))
    ]
  ]

  step-KeepsTo :
      (s : Running r.State) (a : Step)
      → AllOwned r s.cache
      → KeepsTo (index_of a) s.cache (step r codec world config s a).cache
  unfolding step
  step-KeepsTo s (body idx text) all = answer_body-KeepsTo s idx text all
  step-KeepsTo s (round idx x) all = follow-KeepsTo s idx x all

  KeepsTo-AllOwned : (idx : ℕ) (s s' : r.State) → KeepsTo idx s s' → AllOwned r s → AllOwned r s'
  KeepsTo-AllOwned idx s s' (inl same) all = subst (AllOwned r) (sym same) all
  KeepsTo-AllOwned idx s s' (inr (chain, e, kept)) all =
      Isolated-AllOwned r chain.chain_id s s' kept all

  -- The step is not on a chain with the number `d`.
  abbrev pub IsElsewhere : ℕ → Step → Type 0
  IsElsewhere d a =
      (chain : ChainConfig) → get_elem? config.chains (index_of a) ≡ some chain → chain.chain_id ≢ d

  KeepsTo-Untouched :
      (d : ℕ) (a : Step) (s s' : r.State)
      → d < u64_mod
      → IsElsewhere d a
      → KeepsTo (index_of a) s s'
      → Untouched r d s s'
  KeepsTo-Untouched d a s s' h away (inl same) =
      subst (Untouched r d s) (sym same) (untouched r d s)
  KeepsTo-Untouched d a s s' h away (inr (chain, e, (own, others))) = others d h (away chain e)

  -- On a server that answers, with chain numbers below 2 ^ 64: if the sets that track the heads of the
  -- chains list keys of their own chains only, so they do after any sequence of bodies of clients and
  -- rounds of trackers, on any chains; and while none of these is on a chain with a given number, every
  -- value and every set under a key of that chain stays as it was.
  pub steps-Untouched :
      (acts : List Step) (s : Running r.State) (d : ℕ)
      → d < u64_mod
      → AllOwned r s.cache
      → All (IsElsewhere d) acts
      → AllOwned r (steps r codec world config s acts).cache
        × Untouched r d s.cache (steps r codec world config s acts).cache
  unfolding steps
  steps-Untouched [] s d h all away = (all, untouched r d s.cache)
  steps-Untouched (a ∷ later) s d h all (here, rest) =
      let s1 = step r codec world config s a in
      let kept = step-KeepsTo s a all in
      let (all', same) =
        steps-Untouched later s1 d h (KeepsTo-AllOwned (index_of a) s.cache s1.cache kept all)
          rest in
      (
        all',
        Untouched-trans r d s.cache s1.cache (steps r codec world config s1 later).cache
            (KeepsTo-Untouched d a s.cache s1.cache h here kept) same,
      )
