-- ===== src/Upstream/Manager/Failover/Tiers.antt =====
-- Which upstreams a tier and its attempt order hold.
use poolbeg.Prelude.{
  ℕ, zero, suc, ◌+◌, ◌≡◌, refl, ◌≢◌, inl, inr, true, not, ◌&&◌, List, [], ◌∷◌, Option, none, some,
  ◌==◌, get_elem?, keep, any, arith, Bool-cases,
}
use native.Mathlib.Decide.{ℕ_discrete}
use poolbeg.Config.{UpstreamRole, primary, secondary, fallback}
use poolbeg.Upstream.Client.{UpstreamClient, is_healthy}
use poolbeg.Upstream.Manager.{same_role, tier_from, attempt_order}

abbrev pub Contains : ℕ → List ℕ → Type 0
Contains i xs = any (λ j. j == i) xs ≡ true

same_role_refl : (role : UpstreamRole) → same_role role role ≡ true
same_role_refl primary = refl
same_role_refl secondary = refl
same_role_refl fallback = refl

-- A healthy upstream is in the tier of its role.
pub tier_from-Contains :
    (n i t : ℕ) (us : List UpstreamClient) (u : UpstreamClient)
    → t ≡ n + i
    → get_elem? us i ≡ some u
    → is_healthy u ≡ true
    → Contains t (tier_from n u.role us)
unfolding tier_from
tier_from-Contains n i t [] u e h g = absurd (cc)
tier_from-Contains n zero t (w ∷ us) u e h g =
    let p : w ≡ u = ground arith in rw p (rw (same_role_refl u.role) (rw g (ground arith)))
tier_from-Contains n (suc i) t (w ∷ us) u e h g =
    let rest = tier_from-Contains (suc n) i t us u (omega arith) h g in
    elim (Bool-cases (same_role w.role u.role && is_healthy w)) [
      | inl k ↦ rw k (ground (arith, rest))
      | inr k ↦ rw k rest
    ]

keep-Contains :
    (i p : ℕ) (tier : List ℕ) → p ≢ i → Contains i tier → Contains i (keep (λ j. not (p == j)) tier)
keep-Contains i p [] ne m = m
keep-Contains i p (j ∷ tier) ne m = elim (ℕ_discrete j i) [
  | yes e ↦ ground arith
  | no other ↦ let rest = keep-Contains i p tier ne (ground arith) in ground (arith, rest)
]

pub attempt_order-Contains :
    (i : ℕ) (p : Option ℕ) (tier : List ℕ) → Contains i tier → Contains i (attempt_order p tier)
unfolding attempt_order
attempt_order-Contains i none tier m = m
attempt_order-Contains i (some p) tier m = elim (ℕ_discrete p i) [
  | yes e ↦ ground arith
  | no ne ↦ ground (arith, keep-Contains i p tier ne m)
]
