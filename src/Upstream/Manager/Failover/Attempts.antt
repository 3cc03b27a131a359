-- ===== src/Upstream/Manager/Failover/Attempts.antt =====
-- The loop over an attempt order.
use poolbeg.Prelude.{
  ℕ, ◌≡◌, refl, ◌∙◌, ◌≢◌, ◌⊎◌, inl, inr, Bool, true, false, List, [], ◌∷◌, none, some, ◌==◌,
  get_elem?, set, get_elem?-set_ne, any, arith, Option-cases,
}
use native.Mathlib.Decide.{ℕ_discrete}
use poolbeg.Rpc.Types.{JsonRpcResponse}
use poolbeg.Upstream.Client.{
  UpstreamClient, reply, is_success, send_request, try_acquire_rate_limit,
}
use poolbeg.Upstream.Manager.{
  Exchange, Attempt, limited, failed, answer, attempt_one, Progress, attempts,
}

abbrev pub Answered : Progress → Type 0
Answered p = (r : JsonRpcResponse) × (p.answer_of ≡ some r)

-- A token for the upstream and a good reply make the attempt an answer.
pub attempt_one-answer :
    (x : Exchange) (i status elapsed : ℕ) (u : UpstreamClient) (resp : JsonRpcResponse)
    → (try_acquire_rate_limit u (x.acquired i)).1 ≡ true
    → x.net i ≡ reply status elapsed (some resp)
    → is_success status ≡ true
    → (attempt_one x i u).1 ≡ answer resp
unfolding attempt_one send_request
attempt_one-answer x i status elapsed u resp ok good fine = rw ok (rw good (rw fine))

pub Attempt-cases :
    (a : Attempt) → (a ≡ limited) ⊎ ((a ≡ failed) ⊎ ((r : JsonRpcResponse) × (a ≡ answer r)))
Attempt-cases limited = inl refl
Attempt-cases failed = inr (inl refl)
Attempt-cases (answer r) = inr (inr (r, refl))

-- The ways through one round of the loop.
module _ (x : Exchange) (j : ℕ) (order : List ℕ) (us : List UpstreamClient) (l : Bool) where
  pub attempts_missing : get_elem? us j ≡ none → attempts x (j ∷ order) us l ≡ attempts x order us l
  unfolding attempts
  attempts_missing e = rw (e, attempts)

  pub attempts_limited :
      (w : UpstreamClient)
      → get_elem? us j ≡ some w
      → (attempt_one x j w).1 ≡ limited
      → attempts x (j ∷ order) us l ≡ attempts x order (set us j (attempt_one x j w).0) l
  unfolding attempts
  attempts_limited w e g = rw (e, attempts) (rw g)

  pub attempts_failed :
      (w : UpstreamClient)
      → get_elem? us j ≡ some w
      → (attempt_one x j w).1 ≡ failed
      → attempts x (j ∷ order) us l ≡ attempts x order (set us j (attempt_one x j w).0) false
  unfolding attempts
  attempts_failed w e g = rw (e, attempts) (rw g)

  attempts_answer :
      (w : UpstreamClient) (r : JsonRpcResponse)
      → get_elem? us j ≡ some w
      → (attempt_one x j w).1 ≡ answer r
      → (attempts x (j ∷ order) us l).answer_of ≡ some r
  unfolding attempts
  attempts_answer w r e g = rw (e, attempts) (rw g)

  pub attempts_ended :
      (w : UpstreamClient) (r : JsonRpcResponse)
      → get_elem? us j ≡ some w
      → (attempt_one x j w).1 ≡ answer r
      → (attempts x (j ∷ order) us l).upstreams ≡ set us j (attempt_one x j w).0
  unfolding attempts
  attempts_ended w r e g = rw (e, attempts) (rw g)

module _ (x : Exchange) (i : ℕ) (u : UpstreamClient) (resp : JsonRpcResponse)
    (serves : (attempt_one x i u).1 ≡ answer resp) where
  -- The loop has an answer, or it has not come to the upstream, which is then as it was.
  pub attempts_or :
      (order : List ℕ) (us : List UpstreamClient) (l : Bool)
      → get_elem? us i ≡ some u
      → Answered (attempts x order us l)
        ⊎ ((any (λ j. j == i) order ≡ false)
            × (get_elem? (attempts x order us l).upstreams i ≡ some u))
  attempts_or [] us l here = unfold attempts in inr (refl, here)
  attempts_or (j ∷ order) us l here = elim (ℕ_discrete j i) [
    | yes e ↦ inl (resp, rw e (attempts_answer x i order us l u resp here serves))
    | no ne ↦ elim (Option-cases (get_elem? us j)) [
      | inl g ↦
          rw (attempts_missing x j order us l g)
            (pass (attempts x order us l) ne (attempts_or order us l here))
      | inr (w, g) ↦ elim (Attempt-cases (attempt_one x j w).1) [
        | inl k ↦ rw (attempts_limited x j order us l w g k) (
            pass (attempts x order (set us j (attempt_one x j w).0) l) ne (
              attempts_or order (set us j (attempt_one x j w).0) l
                (get_elem?-set_ne us {i = j} {j = i} (attempt_one x j w).0 ne ∙ here)))
        | inr (inl k) ↦ rw (attempts_failed x j order us l w g k) (
            pass (attempts x order (set us j (attempt_one x j w).0) false) ne (
              attempts_or order (set us j (attempt_one x j w).0) false
                (get_elem?-set_ne us {i = j} {j = i} (attempt_one x j w).0 ne ∙ here)))
        | inr (inr (r, k)) ↦ inl (r, attempts_answer x j order us l w r g k)
      ]
    ]
  ]
    where
      pass :
          (p : Progress)
          → j ≢ i
          → Answered p ⊎ ((any (λ k. k == i) order ≡ false) × (get_elem? p.upstreams i ≡ some u))
          → Answered p
            ⊎ ((any (λ k. k == i) (j ∷ order) ≡ false) × (get_elem? p.upstreams i ≡ some u))
      pass p ne (inl a) = inl a
      pass p ne (inr (m, g)) = inr (ground (arith, m), g)
