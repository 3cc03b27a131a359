-- ===== src/Upstream/Manager/Failover.antt =====
-- When `forward_request` answers, and when it finds no healthy upstream.
mod Attempts
mod Tiers
mod Untouched
pub mod Once
use poolbeg.Prelude.{
  ℕ, zero, suc, ◌+◌, ◌≡◌, refl, sym, ◌∙◌, ◌≢◌, ◌⊎◌, inl, inr, Bool, true, false, not, ◌&&◌, List,
  [], ◌∷◌, Option, none, some, ◌==◌, if◌then◌else◌, get_elem?, set, get_elem?-set_ne, keep, any,
  arith, Bool-cases, Option-cases,
}
use native.Mathlib.Decide.{ℕ_discrete}
use poolbeg.Config.{UpstreamRole, primary, secondary, fallback, UpstreamStrategy}
use poolbeg.Rpc.Types.{JsonRpcResponse}
use poolbeg.Upstream.Client.{
  UpstreamClient, reply, is_success, is_healthy, send_request, try_acquire_rate_limit,
}
use poolbeg.Upstream.Strategy.{select}
use poolbeg.Upstream.Manager.{
  same_role, tier_from, latency_at, attempt_order, Exchange, Attempt, limited, failed, answer,
  attempt_one, Progress, attempts, Manager, forwarded, panicked, try_tier, try_tiers,
  roles_in_order, verdict, forward_request,
}
use poolbeg.Upstream.Manager.Failover.Attempts.{Answered, attempt_one-answer, attempts_or}
use poolbeg.Upstream.Manager.Failover.Tiers.{Contains, tier_from-Contains, attempt_order-Contains}

-- The two ways through a tier.
module _ (x : Exchange) (strategy : UpstreamStrategy) (role : UpstreamRole)
    (us : List UpstreamClient) (counter : ℕ) (l : Bool) where
  pub try_tier_empty :
      tier_from 0 role us ≡ []
      → try_tier x strategy role us counter l
        ≡ (false, counter, record { upstreams = us; all_rate_limited = l; answer_of = none })
  unfolding try_tier
  try_tier_empty e = rw (e, try_tier)

  pub try_tier_some :
      (i : ℕ) (is : List ℕ)
      → tier_from 0 role us ≡ i ∷ is
      → (p : Option ℕ) × ((try_tier x strategy role us counter l).0 ≡ true)
        × ((try_tier x strategy role us counter l).2
            ≡ attempts x (attempt_order p (tier_from 0 role us)) us l)
  unfolding try_tier
  try_tier_some i is e = (
    (select (latency_at us) x.gen_range (i ∷ is) strategy counter).0,
    rw (e, try_tier),
    rw (e, try_tier) (rw e),
  )

pub List-cases {ℓ} :
    {A : Type ℓ} (xs : List A) → (xs ≡ []) ⊎ ((y : A) × (ys : List A) × (xs ≡ y ∷ ys))
List-cases [] = inl refl
List-cases (y ∷ ys) = inr (y, ys, refl)

module _ (x : Exchange) (i : ℕ) (u : UpstreamClient) (resp : JsonRpcResponse)
    (serves : (attempt_one x i u).1 ≡ answer resp) (well : is_healthy u ≡ true) where
  try_tier_or :
      (strategy : UpstreamStrategy) (role : UpstreamRole) (us : List UpstreamClient) (counter : ℕ)
      (l : Bool)
      → get_elem? us i ≡ some u
      → Answered (try_tier x strategy role us counter l).2
        ⊎ ((role ≢ u.role)
            × (get_elem? (try_tier x strategy role us counter l).2.upstreams i ≡ some u))
  try_tier_or strategy role us counter l here = elim (List-cases (tier_from 0 role us)) [
    | inl e ↦ rw (try_tier_empty x strategy role us counter l e) (
        inr (
          (λ same.
              let m = tier_from-Contains 0 i i us u (omega arith) here well in
              let m' : Contains i (tier_from 0 role us) = rw same m in cc),
          here,
        ))
    | inr (j, js, e) ↦
        let (p, _, g) = try_tier_some x strategy role us counter l j js e in
        rw g
          (elim (attempts_or x i u resp serves (attempt_order p (tier_from 0 role us)) us l here) [
            | inl a ↦ inl a
            | inr (m, k) ↦ inr (
              (λ same.
                  let c =
                    attempt_order-Contains i p (tier_from 0 role us)
                      (rw same (tier_from-Contains 0 i i us u (omega arith) here well)) in
                  cc),
              k,
            )
          ])
  ]

-- The two ways through the loop over the roles.
module _ (x : Exchange) (strategy : UpstreamStrategy) (role : UpstreamRole)
    (roles : List UpstreamRole) (us : List UpstreamClient) (counter : ℕ) (tried l : Bool) where
  pub tiers_answered :
      (r : JsonRpcResponse)
      → (try_tier x strategy role us counter l).2.answer_of ≡ some r
      → ((try_tiers x strategy (role ∷ roles) us counter tried l).0 ≡ true)
        × ((try_tiers x strategy (role ∷ roles) us counter tried l).2
            ≡ (try_tier x strategy role us counter l).2)
  unfolding try_tiers
  tiers_answered r e = (rw (e, try_tiers), rw (e, try_tiers))

  pub tiers_next :
      (try_tier x strategy role us counter l).2.answer_of ≡ none
      → try_tiers x strategy (role ∷ roles) us counter tried l
        ≡ try_tiers x strategy roles
            (try_tier x strategy role us counter l).2.upstreams
            (try_tier x strategy role us counter l).1
            (if (try_tier x strategy role us counter l).0 then true else tried)
            (try_tier x strategy role us counter l).2.all_rate_limited
  unfolding try_tiers
  tiers_next e = rw (e, try_tiers)

module _ (x : Exchange) (i : ℕ) (u : UpstreamClient) (resp : JsonRpcResponse)
    (serves : (attempt_one x i u).1 ≡ answer resp) (well : is_healthy u ≡ true) where
  abbrev Listed : List UpstreamRole → Type 0
  Listed [] = ⊥
  Listed (role ∷ roles) = (role ≡ u.role) ⊎ Listed roles

  try_tiers-Answered :
      (strategy : UpstreamStrategy) (roles : List UpstreamRole) (us : List UpstreamClient)
      (counter : ℕ) (tried l : Bool)
      → get_elem? us i ≡ some u
      → Listed roles
      → Answered (try_tiers x strategy roles us counter tried l).2
  try_tiers-Answered strategy [] us counter tried l here m = elim m [ ]
  try_tiers-Answered strategy (role ∷ roles) us counter tried l here m =
      let t = try_tier x strategy role us counter l in
      elim (Option-cases t.2.answer_of) [
        | inr (r, e) ↦ (r, rw (tiers_answered x strategy role roles us counter tried l r e).1 e)
        | inl e ↦
            rw (tiers_next x strategy role roles us counter tried l e)
              (elim (try_tier_or x i u resp serves well strategy role us counter l here) [
                | inl (r, k) ↦ absurd (cc)
                | inr (other, kept) ↦
                    try_tiers-Answered strategy roles t.2.upstreams t.1
                      (if t.0 then true else tried) t.2.all_rate_limited kept
                      (elim m [ inl same ↦ absurd (other same) | inr later ↦ later ])
              ])
      ]

  every_role : (role : UpstreamRole) → role ≡ u.role → Listed roles_in_order
  every_role primary e = inl e
  every_role secondary e = inr (inl e)
  every_role fallback e = inr (inr (inl e))

verdict-answered :
    (x : Exchange) (tried : Bool) (p : Progress) (r : JsonRpcResponse)
    → x.log_panics r ≡ false
    → p.answer_of ≡ some r
    → verdict x tried p ≡ forwarded r
verdict-answered x tried p r quiet e = rw e (rw quiet refl)

-- Failover: if some healthy upstream has a token and would answer, and no log of an answer panics, the
-- request is answered, whatever the other upstreams do and whatever the strategy prefers.
pub forward_request-answers :
    (x : Exchange) (m : Manager) (i status elapsed : ℕ) (u : UpstreamClient)
    (resp : JsonRpcResponse)
    → get_elem? m.upstreams i ≡ some u
    → is_healthy u ≡ true
    → (try_acquire_rate_limit u (x.acquired i)).1 ≡ true
    → x.net i ≡ reply status elapsed (some resp)
    → is_success status ≡ true
    → ((r : JsonRpcResponse) → x.log_panics r ≡ false)
    → (r : JsonRpcResponse) × ((forward_request x m).1 ≡ forwarded r)
unfolding forward_request
forward_request-answers x m i status elapsed u resp here well token good fine quiet =
    let serves = attempt_one-answer x i status elapsed u resp token good fine in
    let (r, e) =
      try_tiers-Answered x i u resp serves well m.strategy roles_in_order m.upstreams m.counter
        false true here (every_role x i u resp serves well u.role refl) in
    (
      r,
      verdict-answered x (try_tiers x m.strategy roles_in_order m.upstreams m.counter false true).0
          (try_tiers x m.strategy roles_in_order m.upstreams m.counter false true).2 r (quiet r) e,
    )

forwarded_not_panicked : (r : JsonRpcResponse) → forwarded r ≢ panicked
forwarded_not_panicked r e = absurd (cc)

verdict-quiet :
    (x : Exchange) (tried : Bool) (p : Progress)
    → ((r : JsonRpcResponse) → x.log_panics r ≡ false)
    → verdict x tried p ≢ panicked
verdict-quiet x tried p quiet bad = elim (Option-cases p.answer_of) [
  | inr (r, e) ↦ forwarded_not_panicked r (sym (verdict-answered x tried p r (quiet r) e) ∙ bad)
  | inl e ↦ absurd (ground (arith, e, bad))
]

-- Without a panic in the log there is none in `forward_request`.
pub forward_request-quiet :
    (x : Exchange) (m : Manager)
    → ((r : JsonRpcResponse) → x.log_panics r ≡ false)
    → (forward_request x m).1 ≢ panicked
unfolding forward_request
forward_request-quiet x m quiet bad =
    let t = try_tiers x m.strategy roles_in_order m.upstreams m.counter false true in
    verdict-quiet x t.0 t.2 quiet bad
