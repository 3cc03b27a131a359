-- ===== src/Upstream/Strategy.antt =====
-- The choice among healthy candidates: src/upstream/strategy.rs. `gen_range n` is the random number
-- below `n`, and `latency` the candidate's measured latency.
use poolbeg.Prelude.{
  ℕ, zero, suc, ◌+◌, ◌-◌, ◌%◌, ◌<◌, ◌≤◌, ◌≡◌, refl, sym, ap, ◌∙◌, subst, List, [], ◌∷◌, Option,
  none, some, ltb, if◌then◌else◌, length, get_elem?, arith, u64_mod, inl, inr, Bool-cases, All,
}
use native.Mathlib.Nat.{mod-lt, mod-eq_of_lt, mod-add-mod, add-mod_right}
use native.Mathlib.Decide.{dec_le}
use poolbeg.Config.{UpstreamStrategy, round_robin, random, lowest_latency}

-- The value is one of the list.
abbrev pub IsOneOf : {A : Type 0} → List A → A → Type 0
IsOneOf us u = (i : ℕ) × (get_elem? us i ≡ some u)

-- The distance from the counter's place to the place `i`, round a list of `n`.
round_distance : (n c i : ℕ) → i < n → (k : ℕ) × (k < n) × ((c + k) % n ≡ i)
round_distance n c i h = elim (dec_le (c % n) i) [
  | yes p ↦ (i - c % n, omega arith, reaches (i - c % n) i (omega arith) (mod-eq_of_lt h))
  | no p ↦ (
    i + n - c % n,
    omega (arith, mod-lt c {m = n} (omega arith)),
    reaches (i + n - c % n) (i + n) (omega (arith, mod-lt c {m = n} (omega arith)))
        (add-mod_right i n ∙ mod-eq_of_lt h),
  )
]
  where
    reaches : (k t : ℕ) → c % n + k ≡ t → t % n ≡ i → (c + k) % n ≡ i
    reaches k t e g = sym (mod-add-mod c n k) ∙ rw e g

module _ {A : Type 0} (latency : A → ℕ) where
  -- `min_by_key`: the first candidate of the lowest latency.
  unfoldable pub min_by_latency : A → List A → A
  min_by_latency best [] = best
  min_by_latency best (u ∷ us) =
      min_by_latency (if ltb (latency u) (latency best) then u else best) us

  -- The counter of the round robin is a `usize`, which wraps.
  unfoldable pub select : (ℕ → ℕ) → List A → UpstreamStrategy → ℕ → Option A × ℕ
  unfolding min_by_latency
  select gen_range [] strategy counter = (none, counter)
  select gen_range (u ∷ []) strategy counter = (some u, counter)
  select gen_range (u ∷ v ∷ us) round_robin counter =
      (get_elem? (u ∷ v ∷ us) (counter % length (u ∷ v ∷ us)), (counter + 1) % u64_mod)
  select gen_range (u ∷ v ∷ us) random counter =
      (get_elem? (u ∷ v ∷ us) (gen_range (length (u ∷ v ∷ us))), counter)
  select gen_range (u ∷ v ∷ us) lowest_latency counter = (some (min_by_latency u (v ∷ us)), counter)

  get_elem?-lt : (xs : List A) (i : ℕ) {a : A} → get_elem? xs i ≡ some a → i < length xs
  get_elem?-lt [] i h = cc
  get_elem?-lt (x ∷ xs) zero h = omega arith
  get_elem?-lt (x ∷ xs) (suc i) h = omega (arith, get_elem?-lt xs i h)

  get_elem?-total : (xs : List A) (i : ℕ) → i < length xs → (a : A) × (get_elem? xs i ≡ some a)
  get_elem?-total [] i h = absurd (omega arith)
  get_elem?-total (x ∷ xs) zero h = (x, refl)
  get_elem?-total (x ∷ xs) (suc i) h = get_elem?-total xs i (omega arith)

  min_by_latency-IsOneOf : (best : A) (us : List A) → IsOneOf (best ∷ us) (min_by_latency best us)
  unfolding min_by_latency
  min_by_latency-IsOneOf best [] = (0, refl)
  min_by_latency-IsOneOf best (u ∷ us) = elim (Bool-cases (ltb (latency u) (latency best))) [
    | inl e ↦ let (i, p) = min_by_latency-IsOneOf u us in rw e (suc i, p)
    | inr e ↦ rw e (skip (min_by_latency-IsOneOf best us))
  ]
    where
      skip : {a : A} → IsOneOf (best ∷ us) a → IsOneOf (best ∷ u ∷ us) a
      skip (zero, p) = (zero, p)
      skip (suc i, p) = (suc (suc i), p)

  min_by_latency-le_with :
      (best : A) (us : List A) (m : A)
      → min_by_latency best us ≡ m
      → All (λ u. latency m ≤ latency u) (best ∷ us)
  unfolding min_by_latency
  min_by_latency-le_with best [] m h = (rw h (omega arith), tt)
  min_by_latency-le_with best (u ∷ us) m h = elim (Bool-cases (ltb (latency u) (latency best))) [
    | inl e ↦
        let (p, ps) = min_by_latency-le_with u us m (rw e at h) in (ground (arith, p), (p, ps))
    | inr e ↦
        let (p, ps) = min_by_latency-le_with best us m (rw e at h) in (p, (ground (arith, p), ps))
  ]

  min_by_latency-le :
      (best : A) (us : List A) → All (λ u. latency (min_by_latency best us) ≤ latency u) (best ∷ us)
  min_by_latency-le best us = min_by_latency-le_with best us (min_by_latency best us) refl

  -- `rand` documents that `gen_range(0..n)` is below `n`.
  module _ (gen_range : ℕ → ℕ) (in_range : (n : ℕ) → 0 < n → gen_range n < n) where
    -- Whatever the strategy, a nonempty list of candidates yields one of them.
    pub select-IsOneOf :
        (u : A) (us : List A) (strategy : UpstreamStrategy) (counter : ℕ)
        → (a : A) × ((select gen_range (u ∷ us) strategy counter).0 ≡ some a) × IsOneOf (u ∷ us) a
    unfolding select
    select-IsOneOf u [] strategy counter = (u, refl, (0, refl))
    select-IsOneOf u (v ∷ us) round_robin counter =
        let i = counter % length (u ∷ v ∷ us) in
        let (a, p) = get_elem?-total (u ∷ v ∷ us) i (mod-lt counter (omega arith)) in (a, p, (i, p))
    select-IsOneOf u (v ∷ us) random counter =
        let i = gen_range (length (u ∷ v ∷ us)) in
        let (a, p) = get_elem?-total (u ∷ v ∷ us) i (in_range _ (omega arith)) in (a, p, (i, p))
    select-IsOneOf u (v ∷ us) lowest_latency counter =
        (min_by_latency u (v ∷ us), refl, min_by_latency-IsOneOf u (v ∷ us))

  -- A choice is one of the candidates, also where the random number is out of range.
  pub select-some :
      (gen_range : ℕ → ℕ) (us : List A) (strategy : UpstreamStrategy) (counter : ℕ) (a : A)
      → (select gen_range us strategy counter).0 ≡ some a
      → IsOneOf us a
  unfolding select
  select-some gen_range [] strategy counter a e = absurd (cc)
  select-some gen_range (u ∷ []) strategy counter a e = (0, e)
  select-some gen_range (u ∷ v ∷ us) round_robin counter a e = (counter % length (u ∷ v ∷ us), e)
  select-some gen_range (u ∷ v ∷ us) random counter a e = (gen_range (length (u ∷ v ∷ us)), e)
  select-some gen_range (u ∷ v ∷ us) lowest_latency counter a e =
      let p : min_by_latency u (v ∷ us) ≡ a = ground arith in
      subst (IsOneOf (u ∷ v ∷ us)) p (min_by_latency-IsOneOf u (v ∷ us))

  -- With the lowest-latency strategy no candidate is faster than the chosen one.
  pub select-lowest_latency :
      (gen_range : ℕ → ℕ) (us : List A) (counter : ℕ) {a : A}
      → (select gen_range us lowest_latency counter).0 ≡ some a
      → All (λ u. latency a ≤ latency u) us
  unfolding select
  select-lowest_latency gen_range [] counter e = tt
  select-lowest_latency gen_range (u ∷ []) counter e = (ground arith, tt)
  select-lowest_latency gen_range (u ∷ v ∷ us) counter {a} e =
      let p : min_by_latency u (v ∷ us) ≡ a = ground arith in
      subst (λ b. All (λ w. latency b ≤ latency w) (u ∷ v ∷ us)) p (min_by_latency-le u (v ∷ us))

  -- The choice of the `k`-th further call, each made with the counter that the one before left.
  unfoldable pub select_nth : (ℕ → ℕ) → List A → UpstreamStrategy → ℕ → ℕ → Option A
  select_nth gen_range us strategy zero counter = (select gen_range us strategy counter).0
  select_nth gen_range us strategy (suc k) counter =
      select_nth gen_range us strategy k (select gen_range us strategy counter).1

  select_nth-round_robin :
      (gen_range : ℕ → ℕ) (u v : A) (us : List A) (k counter : ℕ)
      → counter + k < u64_mod
      → select_nth gen_range (u ∷ v ∷ us) round_robin k counter
        ≡ get_elem? (u ∷ v ∷ us) ((counter + k) % length (u ∷ v ∷ us))
  unfolding select_nth select
  select_nth-round_robin gen_range u v us zero counter h =
      ap (λ c. get_elem? (u ∷ v ∷ us) (c % length (u ∷ v ∷ us))) (omega arith)
  select_nth-round_robin gen_range u v us (suc k) counter h =
      let e : (counter + 1) % u64_mod ≡ counter + 1 = omega arith in
      rw e (
        select_nth-round_robin gen_range u v us k (counter + 1) (omega arith)
        ∙ ap (λ c. get_elem? (u ∷ v ∷ us) (c % length (u ∷ v ∷ us))) (omega arith))

  -- The round robin starves no candidate: each is chosen by one of the next `n` calls, where `n` is
  -- the number of candidates, as long as the counter does not wrap meanwhile.
  pub select-round_robin :
      (gen_range : ℕ → ℕ) (us : List A) (counter i : ℕ) {a : A}
      → get_elem? us i ≡ some a
      → counter + length us < u64_mod
      → (k : ℕ) × (k < length us) × (select_nth gen_range us round_robin k counter ≡ some a)
  unfolding select
  select-round_robin gen_range [] counter i e h = absurd (cc)
  select-round_robin gen_range (u ∷ []) counter zero e h = (0, omega arith, unfold select_nth in e)
  select-round_robin gen_range (u ∷ []) counter (suc i) e h = absurd (cc)
  select-round_robin gen_range (u ∷ v ∷ us) counter i e h =
      let (k, lt, at) =
        round_distance (length (u ∷ v ∷ us)) counter i (get_elem?-lt (u ∷ v ∷ us) i e) in
      (k, lt, rw (select_nth-round_robin gen_range u v us k counter (omega arith)) (rw at e))
