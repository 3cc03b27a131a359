-- ===== src/Upstream/Manager/Failover/Once.antt =====
-- How often one request asks one upstream.
use poolbeg.Prelude.{
  ℕ, ◌≡◌, refl, sym, subst, ◌∙◌, ◌⊎◌, inl, inr, Bool, true, false, ◌&&◌, List, [], ◌∷◌, Option,
  some, if◌then◌else◌, get_elem?, All, arith, Bool-cases, Option-cases,
}
use poolbeg.Config.{UpstreamRole, primary, secondary, fallback, UpstreamStrategy}
use poolbeg.Upstream.Client.{
  UpstreamClient, is_healthy, try_acquire_rate_limit, send_request, record_success, record_failure,
  record_http_error, update_latency, HttpOutcome, unreachable, reply, is_success, is_error_status,
}
use poolbeg.Upstream.Strategy.{select, select-some}
use poolbeg.Upstream.Manager.{
  same_role, tier_from, latency_at, attempt_order, Exchange, attempt_one, attempts, Manager,
  try_tier, try_tiers, roles_in_order, forward_request,
}
use poolbeg.Upstream.Manager.Failover.{try_tier_empty, tiers_answered, tiers_next, List-cases}
use poolbeg.Upstream.Manager.Failover.Untouched.{
  attempts-Lacks, attempts-once, tier_from-Distinct, tier_from-Lacks, attempt_order-Distinct,
  attempt_order-Lacks,
}

same_role_eq : (a b : UpstreamRole) → same_role a b ≡ true → a ≡ b
same_role_eq primary primary e = refl
same_role_eq secondary secondary e = refl
same_role_eq fallback fallback e = refl
same_role_eq primary secondary e = cc
same_role_eq primary fallback e = cc
same_role_eq secondary primary e = cc
same_role_eq secondary fallback e = cc
same_role_eq fallback primary e = cc
same_role_eq fallback secondary e = cc

-- Nothing that a request does to an upstream changes its role.
record_http_error-role : (u : UpstreamClient) (now : ℕ) → (record_http_error u now).role ≡ u.role
unfolding record_http_error
record_http_error-role u now = ground arith

send_request-role :
    (u : UpstreamClient) (now : ℕ) (outcome : HttpOutcome)
    → (send_request u now outcome).0.role ≡ u.role
unfolding send_request update_latency
send_request-role u now unreachable = record_http_error-role u now
send_request-role u now (reply status elapsed body) =
    let kept = record_http_error-role (update_latency u elapsed) now in
    elim (Bool-cases (is_success status)) [
      | inl e ↦ rw e refl
      | inr e ↦
          rw e
            (elim (Bool-cases (is_error_status status)) [ inl f ↦ rw f kept | inr f ↦ rw f refl ])
    ]

record_success-role : (u : UpstreamClient) (now : ℕ) → (record_success u now).role ≡ u.role
unfolding record_success
record_success-role u now = ground arith

record_failure-role : (u : UpstreamClient) (now : ℕ) → (record_failure u now).role ≡ u.role
unfolding record_failure
record_failure-role u now = ground arith

attempt_one-role : (x : Exchange) (i : ℕ) (u : UpstreamClient) → (attempt_one x i u).0.role ≡ u.role
unfolding attempt_one try_acquire_rate_limit
attempt_one-role x i u =
    let u1 = (try_acquire_rate_limit u (x.acquired i)).0 in
    let u2 = (send_request u1 (x.answered i) (x.net i)).0 in
    let sent = send_request-role u1 (x.answered i) (x.net i) in
    elim (Bool-cases (try_acquire_rate_limit u (x.acquired i)).1) [
      | inr e ↦ rw (e, attempt_one) refl
      | inl e ↦ elim (Option-cases (send_request u1 (x.answered i) (x.net i)).1) [
        | inl f ↦ rw (e, attempt_one) (rw f (record_failure-role u2 (x.answered i) ∙ sent))
        | inr (resp, f) ↦ elim (Bool-cases (x.log_panics resp)) [
          | inl g ↦ rw (e, attempt_one) (rw f (rw g sent))
          | inr g ↦ rw (e, attempt_one) (rw f (rw g (record_success-role u2 (x.answered i) ∙ sent)))
        ]
      ]
    ]

-- What an upstream is after a request: as it was, or, if it was healthy, as one attempt leaves it.
abbrev pub AtMostOnce : Exchange → ℕ → UpstreamClient → Option UpstreamClient → Type 0
AtMostOnce x i u o = (o ≡ some u) ⊎ ((is_healthy u ≡ true) × (o ≡ some (attempt_one x i u).0))

abbrev Apart : UpstreamRole → List UpstreamRole → Type 0
Apart role roles = All (λ r. same_role role r ≡ false) roles

module _ (x : Exchange) (i : ℕ) (strategy : UpstreamStrategy) where
  try_tier_order :
      (role : UpstreamRole) (us : List UpstreamClient) (counter : ℕ) (l : Bool) (j : ℕ)
      (js : List ℕ)
      → tier_from 0 role us ≡ j ∷ js
      → (try_tier x strategy role us counter l).2
        ≡ attempts x
            (attempt_order
              (select (latency_at us) x.gen_range (j ∷ js) strategy counter).0
              (j ∷ js))
            us
            l
  unfolding try_tier
  try_tier_order role us counter l j js e = rw (e, try_tier) (rw e)

  try_tier-other :
      (role : UpstreamRole) (us : List UpstreamClient) (counter : ℕ) (l : Bool) (u : UpstreamClient)
      → get_elem? us i ≡ some u
      → (same_role u.role role && is_healthy u) ≡ false
      → get_elem? (try_tier x strategy role us counter l).2.upstreams i ≡ some u
  try_tier-other role us counter l u here out = elim (List-cases (tier_from 0 role us)) [
    | inl e ↦ rw (try_tier_empty x strategy role us counter l e) here
    | inr (j, js, e) ↦
        let lacks = rw e at (tier_from-Lacks 0 i i role us u (omega arith) here out) in
        rw (try_tier_order role us counter l j js e) (
          attempts-Lacks x i
            (attempt_order (select (latency_at us) x.gen_range (j ∷ js) strategy counter).0
              (j ∷ js))
            us l
            (attempt_order-Lacks i (select (latency_at us) x.gen_range (j ∷ js) strategy counter).0
              (j ∷ js) lacks
              (λ q g. select-some (latency_at us) x.gen_range (j ∷ js) strategy counter q g))
          ∙ here)
  ]

  try_tier-once :
      (role : UpstreamRole) (us : List UpstreamClient) (counter : ℕ) (l : Bool) (u : UpstreamClient)
      → get_elem? us i ≡ some u
      → (get_elem? (try_tier x strategy role us counter l).2.upstreams i ≡ some u)
        ⊎ (get_elem? (try_tier x strategy role us counter l).2.upstreams i
            ≡ some (attempt_one x i u).0)
  try_tier-once role us counter l u here = elim (List-cases (tier_from 0 role us)) [
    | inl e ↦ rw (try_tier_empty x strategy role us counter l e) (inl here)
    | inr (j, js, e) ↦
        let d = rw e at (tier_from-Distinct 0 role us) in
        let p = (select (latency_at us) x.gen_range (j ∷ js) strategy counter).0 in
        rw (try_tier_order role us counter l j js e) (
          attempts-once x i (attempt_order p (j ∷ js)) us l u (attempt_order-Distinct p (j ∷ js) d)
            here)
  ]

  -- Tiers of other roles leave the upstream as it is.
  try_tiers-Apart :
      (roles : List UpstreamRole) (us : List UpstreamClient) (counter : ℕ) (tried l : Bool)
      (u : UpstreamClient)
      → get_elem? us i ≡ some u
      → Apart u.role roles
      → get_elem? (try_tiers x strategy roles us counter tried l).2.upstreams i ≡ some u
  try_tiers-Apart [] us counter tried l u here apart = unfold try_tiers in here
  try_tiers-Apart (role ∷ roles) us counter tried l u here (ne, apart) =
      let t = try_tier x strategy role us counter l in
      let kept = try_tier-other role us counter l u here (ground (arith, ne)) in
      elim (Option-cases t.2.answer_of) [
        | inr (r, e) ↦ rw (tiers_answered x strategy role roles us counter tried l r e).1 kept
        | inl e ↦ rw (tiers_next x strategy role roles us counter tried l e) (
            try_tiers-Apart roles t.2.upstreams t.1 (if t.0 then true else tried)
              t.2.all_rate_limited u kept apart)
      ]

-- No role stands twice.
abbrev AllApart : List UpstreamRole → Type 0
AllApart [] = Unit
AllApart (role ∷ roles) = Apart role roles × AllApart roles

module _ (x : Exchange) (i : ℕ) (strategy : UpstreamStrategy) (u : UpstreamClient) where
  try_tiers-AtMostOnce :
      (roles : List UpstreamRole) (us : List UpstreamClient) (counter : ℕ) (tried l : Bool)
      → get_elem? us i ≡ some u
      → AllApart roles
      → AtMostOnce x i u (get_elem? (try_tiers x strategy roles us counter tried l).2.upstreams i)
  try_tiers-AtMostOnce [] us counter tried l here apart = unfold try_tiers in inl here
  try_tiers-AtMostOnce (role ∷ roles) us counter tried l here (apart, later) =
      let t = try_tier x strategy role us counter l in
      elim (Bool-cases (same_role u.role role && is_healthy u)) [
        | inr out ↦
            let kept = try_tier-other x i strategy role us counter l u here out in
            elim (Option-cases t.2.answer_of) [
              | inr (r, e) ↦
                  rw (tiers_answered x strategy role roles us counter tried l r e).1 (inl kept)
              | inl e ↦ rw (tiers_next x strategy role roles us counter tried l e) (
                  try_tiers-AtMostOnce roles t.2.upstreams t.1 (if t.0 then true else tried)
                    t.2.all_rate_limited kept later)
            ]
        | inl in_tier ↦
            let well : is_healthy u ≡ true = ground (arith, in_tier) in
            let mine : role ≡ u.role = sym (same_role_eq u.role role (ground (arith, in_tier))) in
            let away : (v : UpstreamClient) → v.role ≡ u.role → Apart v.role roles =
              λ v e. subst (λ k. Apart k roles) (mine ∙ sym e) apart in
            elim (Option-cases t.2.answer_of) [
              | inr (r, e) ↦
                  rw (tiers_answered x strategy role roles us counter tried l r e).1
                    (elim (try_tier-once x i strategy role us counter l u here) [
                      | inl a ↦ inl a
                      | inr a ↦ inr (well, a)
                    ])
              | inl e ↦
                  let rest =
                    try_tiers-Apart x i strategy roles t.2.upstreams t.1
                      (if t.0 then true else tried) t.2.all_rate_limited in
                  rw (tiers_next x strategy role roles us counter tried l e)
                    (elim (try_tier-once x i strategy role us counter l u here) [
                      | inl a ↦ inl (rest u a (away u refl))
                      | inr a ↦ inr (
                        well,
                        rest (attempt_one x i u).0 a
                            (away (attempt_one x i u).0 (attempt_one-role x i u)),
                      )
                    ])
            ]
      ]

-- A request asks each upstream once at most, and only a healthy one: afterwards each upstream is as it
-- was, or it was healthy and is as one attempt leaves it. This holds whatever the upstreams answer, and
-- whichever the strategy prefers.
pub forward_request-AtMostOnce :
    (x : Exchange) (m : Manager) (i : ℕ) (u : UpstreamClient)
    → get_elem? m.upstreams i ≡ some u
    → AtMostOnce x i u (get_elem? (forward_request x m).0.upstreams i)
unfolding forward_request
forward_request-AtMostOnce x m i u here =
    try_tiers-AtMostOnce x i m.strategy u roles_in_order m.upstreams m.counter false true here
      ((refl, (refl, tt)), ((refl, tt), (tt, tt)))
