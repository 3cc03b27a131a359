-- ===== src/Upstream/Manager/Failover/Untouched.antt =====
-- Which upstreams an attempt order leaves alone, and that it names none twice.
use poolbeg.Prelude.{
  ℕ, zero, suc, ◌+◌, ◌<◌, ◌≡◌, refl, ◌∙◌, ◌≢◌, ◌⊎◌, inl, inr, Bool, false, not, ◌&&◌, List, [], ◌∷◌,
  Option, none, some, ◌==◌, get_elem?, set, get_elem?-set_ne, get_elem?-set_there, keep, any, arith,
  Bool-cases, Option-cases,
}
use native.Mathlib.Decide.{ℕ_discrete}
use poolbeg.Config.{UpstreamRole}
use poolbeg.Upstream.Client.{UpstreamClient, is_healthy}
use poolbeg.Upstream.Strategy.{IsOneOf}
use poolbeg.Upstream.Manager.{same_role, tier_from, attempt_order, Exchange, attempt_one, attempts}
use poolbeg.Upstream.Manager.Failover.Attempts.{
  Attempt-cases, attempts_missing, attempts_limited, attempts_failed, attempts_ended,
}

abbrev pub Lacks : ℕ → List ℕ → Type 0
Lacks i xs = any (λ j. j == i) xs ≡ false

abbrev pub Distinct : List ℕ → Type 0
Distinct [] = Unit
Distinct (j ∷ js) = Lacks j js × Distinct js

module _ (x : Exchange) (i : ℕ) where
  -- The loop leaves an upstream alone that is not in its order.
  pub attempts-Lacks :
      (order : List ℕ) (us : List UpstreamClient) (l : Bool)
      → Lacks i order
      → get_elem? (attempts x order us l).upstreams i ≡ get_elem? us i
  attempts-Lacks [] us l out = unfold attempts in refl
  attempts-Lacks (j ∷ order) us l out =
      let ne : j ≢ i = λ e. ground (arith, e, out) in
      let later : Lacks i order = ground (arith, out) in
      elim (Option-cases (get_elem? us j)) [
        | inl g ↦ rw (attempts_missing x j order us l g) (attempts-Lacks order us l later)
        | inr (w, g) ↦
            let us1 = set us j (attempt_one x j w).0 in
            let kept = get_elem?-set_ne us {i = j} {j = i} (attempt_one x j w).0 ne in
            elim (Attempt-cases (attempt_one x j w).1) [
              | inl k ↦
                  rw (attempts_limited x j order us l w g k)
                    (attempts-Lacks order us1 l later ∙ kept)
              | inr (inl k) ↦
                  rw (attempts_failed x j order us l w g k)
                    (attempts-Lacks order us1 false later ∙ kept)
              | inr (inr (r, k)) ↦ rw (attempts_ended x j order us l w r g k) kept
            ]
      ]

  -- An order without repetitions tries an upstream once at most.
  pub attempts-once :
      (order : List ℕ) (us : List UpstreamClient) (l : Bool) (u : UpstreamClient)
      → Distinct order
      → get_elem? us i ≡ some u
      → (get_elem? (attempts x order us l).upstreams i ≡ some u)
        ⊎ (get_elem? (attempts x order us l).upstreams i ≡ some (attempt_one x i u).0)
  attempts-once [] us l u d here = unfold attempts in inl here
  attempts-once (j ∷ order) us l u (out, d) here = elim (ℕ_discrete j i) [
    | yes e ↦
        let out' : Lacks i order = rw⁻¹ e out in
        let us1 = set us i (attempt_one x i u).0 in
        let there = get_elem?-set_there us i (attempt_one x i u).0 here in
        rw e (elim (Attempt-cases (attempt_one x i u).1) [
          | inl k ↦
              rw (attempts_limited x i order us l u here k)
                (inr (attempts-Lacks order us1 l out' ∙ there))
          | inr (inl k) ↦
              rw (attempts_failed x i order us l u here k)
                (inr (attempts-Lacks order us1 false out' ∙ there))
          | inr (inr (r, k)) ↦ rw (attempts_ended x i order us l u r here k) (inr there)
        ])
    | no ne ↦ elim (Option-cases (get_elem? us j)) [
      | inl g ↦ rw (attempts_missing x j order us l g) (attempts-once order us l u d here)
      | inr (w, g) ↦
          let us1 = set us j (attempt_one x j w).0 in
          let kept = get_elem?-set_ne us {i = j} {j = i} (attempt_one x j w).0 ne ∙ here in
          elim (Attempt-cases (attempt_one x j w).1) [
            | inl k ↦
                rw (attempts_limited x j order us l w g k) (attempts-once order us1 l u d kept)
            | inr (inl k) ↦
                rw (attempts_failed x j order us l w g k) (attempts-once order us1 false u d kept)
            | inr (inr (r, k)) ↦ rw (attempts_ended x j order us l w r g k) (inl kept)
          ]
    ]
  ]

-- The indices of a tier ascend.
tier_from-above :
    (n k : ℕ) (role : UpstreamRole) (us : List UpstreamClient)
    → k < n
    → Lacks k (tier_from n role us)
unfolding tier_from
tier_from-above n k role [] h = refl
tier_from-above n k role (u ∷ us) h =
    let rest = tier_from-above (suc n) k role us (omega arith) in
    elim (Bool-cases (same_role u.role role && is_healthy u)) [
      | inl e ↦ rw e (ground (arith, rest))
      | inr e ↦ rw e rest
    ]

pub tier_from-Distinct :
    (n : ℕ) (role : UpstreamRole) (us : List UpstreamClient) → Distinct (tier_from n role us)
unfolding tier_from
tier_from-Distinct n role [] = tt
tier_from-Distinct n role (u ∷ us) =
    let rest = tier_from-Distinct (suc n) role us in
    elim (Bool-cases (same_role u.role role && is_healthy u)) [
      | inl e ↦ rw e (tier_from-above (suc n) n role us (omega arith), rest)
      | inr e ↦ rw e rest
    ]

-- An upstream of another role, or an ill one, is not in the tier.
pub tier_from-Lacks :
    (n i t : ℕ) (role : UpstreamRole) (us : List UpstreamClient) (u : UpstreamClient)
    → t ≡ n + i
    → get_elem? us i ≡ some u
    → (same_role u.role role && is_healthy u) ≡ false
    → Lacks t (tier_from n role us)
unfolding tier_from
tier_from-Lacks n i t role [] u e h out = refl
tier_from-Lacks n zero t role (w ∷ us) u e h out =
    let p : w ≡ u = ground arith in
    let later = tier_from-above (suc n) t role us (omega arith) in rw p (rw out later)
tier_from-Lacks n (suc i) t role (w ∷ us) u e h out =
    let rest = tier_from-Lacks (suc n) i t role us u (omega arith) h out in
    elim (Bool-cases (same_role w.role role && is_healthy w)) [
      | inl k ↦ rw k (ground (arith, rest))
      | inr k ↦ rw k rest
    ]

keep-Lacks : (i : ℕ) (f : ℕ → Bool) (tier : List ℕ) → Lacks i tier → Lacks i (keep f tier)
keep-Lacks i f [] out = out
keep-Lacks i f (j ∷ tier) out =
    let rest = keep-Lacks i f tier (ground (arith, out)) in
    elim (Bool-cases (f j)) [ inl e ↦ rw e (ground (arith, out, rest)) | inr e ↦ rw e rest ]

keep-Distinct : (f : ℕ → Bool) (tier : List ℕ) → Distinct tier → Distinct (keep f tier)
keep-Distinct f [] d = tt
keep-Distinct f (j ∷ tier) (out, d) = elim (Bool-cases (f j)) [
  | inl e ↦ rw e (keep-Lacks j f tier out, keep-Distinct f tier d)
  | inr e ↦ rw e (keep-Distinct f tier d)
]

keep_other : (p : ℕ) (tier : List ℕ) → Lacks p (keep (λ j. not (p == j)) tier)
keep_other p [] = refl
keep_other p (j ∷ tier) =
    let rest = keep_other p tier in
    elim (Bool-cases (p == j)) [ inl e ↦ rw e rest | inr e ↦ rw e (ground (arith, e, rest)) ]

pub attempt_order-Distinct :
    (p : Option ℕ) (tier : List ℕ) → Distinct tier → Distinct (attempt_order p tier)
unfolding attempt_order
attempt_order-Distinct none tier d = d
attempt_order-Distinct (some p) tier d = (keep_other p tier, keep-Distinct _ tier d)

IsOneOf-ne : (i p : ℕ) (tier : List ℕ) → Lacks i tier → IsOneOf tier p → (p == i) ≡ false
IsOneOf-ne i p [] out (k, e) = absurd (cc)
IsOneOf-ne i p (j ∷ tier) out (zero, e) = ground (arith, out, e)
IsOneOf-ne i p (j ∷ tier) out (suc k, e) = IsOneOf-ne i p tier (ground (arith, out)) (k, e)

pub attempt_order-Lacks :
    (i : ℕ) (p : Option ℕ) (tier : List ℕ)
    → Lacks i tier
    → ((q : ℕ) → p ≡ some q → IsOneOf tier q)
    → Lacks i (attempt_order p tier)
unfolding attempt_order
attempt_order-Lacks i none tier out chosen = out
attempt_order-Lacks i (some p) tier out chosen =
    let other = IsOneOf-ne i p tier out (chosen p refl) in
    let rest = keep-Lacks i (λ j. not (p == j)) tier out in rw other rest
