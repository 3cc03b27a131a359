-- ===== src/Server/Throughput.antt =====
-- How many requests get through to the handlers.
use poolbeg.Prelude.{
  ℕ, suc, ◌+◌, ◌-◌, ◌*◌, ◌≤◌, ◌≡◌, refl, ap, ◌∙◌, ◌⊎◌, inl, inr, Bool, true, false, not, List, [],
  ◌∷◌, Option, String, str_eq, if◌then◌else◌, Bool-cases, arith, All, leb,
}
use poolbeg.Value.{Value}
use poolbeg.Middleware.RateLimit.{refill, RateLimiter, client_rate_limit, try_acquire, one_token}
use poolbeg.Server.{
  Web, Server, Incoming, Target, Outcome, body_too_large, no_route, cors, rate_limited,
  unauthorized, handled, respond,
}
use poolbeg.Server.Guarded.{respond-IsAdmitted}

-- The request is not for `/health`, and a handler gets it.
abbrev pub is_served : Incoming → Outcome → Bool
is_served req (handled t) = not (str_eq req.head.path "/health")
is_served req _ = false

-- Requests one after another, each with its time: the server after them, and how many were served.
unfoldable pub respond_all :
    Web → (String → Option Value) → Server → List (ℕ × Incoming) → Server × ℕ
respond_all w from_slice server [] = (server, 0)
respond_all w from_slice server ((now, req) ∷ reqs) =
    let (server', outcome) = respond w from_slice server now req in
    let (end, n) = respond_all w from_slice server' reqs in
    (end, if is_served req outcome then suc n else n)

abbrev price : Bool → ℕ
price b = if b then one_token else 0

-- A limiter that was asked at `now` gains nothing more at `now`.
refill_again :
    (rl : RateLimiter) (now : ℕ) → rl.last_refill ≡ now → (refill rl now).tokens ≤ rl.tokens
unfolding refill
refill_again rl now e =
    let still : now - rl.last_refill ≡ 0 = omega (arith, e) in rw still (omega arith)

-- An allowed call takes one token of what the bucket holds at the time.
acquire_left :
    (rl : RateLimiter) (now : ℕ)
    → price (try_acquire rl now).1 + (refill (try_acquire rl now).0 now).tokens
      ≤ (refill rl now).tokens
unfolding try_acquire
acquire_left rl now = elim (Bool-cases (leb one_token (refill rl now).tokens)) [
  | inl e ↦
      let full = refill rl now in
      let paid = record full { tokens = full.tokens - one_token } in
      let again = refill_again paid now refl in
      let enough : one_token ≤ full.tokens = ground (arith, e) in
      rw (e, try_acquire) (omega (arith, again, enough))
  | inr e ↦
      let again = refill_again (refill rl now) now refl in
      rw (e, try_acquire) (omega (arith, again))
]

is_served-health :
    (req : Incoming) (o : Outcome) → str_eq req.head.path "/health" ≡ true → is_served req o ≡ false
is_served-health req (handled t) e = ap not e
is_served-health req body_too_large e = refl
is_served-health req no_route e = refl
is_served-health req cors e = refl
is_served-health req (rate_limited body) e = refl
is_served-health req (unauthorized body) e = refl

is_served-handled :
    (req : Incoming) (o : Outcome)
    → is_served req o ≡ true
    → ((t : Target) × (o ≡ handled t)) × (str_eq req.head.path "/health" ≡ false)
is_served-handled req (handled t) e = ((t, refl), ground arith)
is_served-handled req body_too_large e = absurd (cc)
is_served-handled req no_route e = absurd (cc)
is_served-handled req cors e = absurd (cc)
is_served-handled req (rate_limited body) e = absurd (cc)
is_served-handled req (unauthorized body) e = absurd (cc)

module _ (from_slice : String → Option Value) (path body : String) (rl : RateLimiter)
    (now : ℕ) where
  limiter_health :
      str_eq path "/health" ≡ true → (client_rate_limit from_slice path body rl now).0 ≡ rl
  unfolding client_rate_limit
  limiter_health e = rw (e, client_rate_limit)

  limiter_other :
      str_eq path "/health" ≡ false
      → (client_rate_limit from_slice path body rl now).0 ≡ (try_acquire rl now).0
  unfolding client_rate_limit
  limiter_other e = rw (e, client_rate_limit)

module _ (w : Web) (from_slice : String → Option Value) (server : Server) (now : ℕ)
    (req : Incoming) where
  abbrev after : Server
  after = (respond w from_slice server now req).0

  abbrev served : Bool
  served = is_served req (respond w from_slice server now req).1

  respond_big :
      w.too_large server.config.server.max_body_size req ≡ true
      → ((respond w from_slice server now req).0.rate_limiter ≡ server.rate_limiter)
        × (is_served req (respond w from_slice server now req).1 ≡ false)
  unfolding respond
  respond_big big = (rw (big, respond), rw (big, respond))

  respond_small :
      w.too_large server.config.server.max_body_size req ≡ false
      → (respond w from_slice server now req).0.rate_limiter
        ≡ (client_rate_limit from_slice req.head.path req.body server.rate_limiter now).0
  unfolding respond
  respond_small small = rw (small, respond)

  -- The limiter after a request is the old one, if the request is not served, or the one that was asked.
  respond-limiter :
      ((after.rate_limiter ≡ server.rate_limiter) × (served ≡ false))
      ⊎ (after.rate_limiter ≡ (try_acquire server.rate_limiter now).0)
  respond-limiter = elim (Bool-cases (w.too_large server.config.server.max_body_size req)) [
    | inl big ↦ inl (respond_big big)
    | inr small ↦ elim (Bool-cases (str_eq req.head.path "/health")) [
      | inl health ↦ inl (
        respond_small small
            ∙ limiter_health from_slice req.head.path req.body server.rate_limiter now health,
        is_served-health req (respond w from_slice server now req).1 health,
      )
      | inr other ↦ inr (
          respond_small small
          ∙ limiter_other from_slice req.head.path req.body server.rate_limiter now other)
    ]
  ]

  served-acquired : served ≡ true → (try_acquire server.rate_limiter now).1 ≡ true
  served-acquired e =
      let ((t, h), other) = is_served-handled req (respond w from_slice server now req).1 e in
      let (_, token, _, _, _) = respond-IsAdmitted w from_slice server now req t h in
      elim token [ inl health ↦ absurd (ground arith) | inr ok ↦ ok ]

  -- A request takes what it costs from what the bucket holds at its time.
  respond_left :
      price served + (refill after.rate_limiter now).tokens
      ≤ (refill server.rate_limiter now).tokens
  respond_left = elim respond-limiter [
    | inl (same, free) ↦ rw same (rw free (omega arith))
    | inr asked ↦
        let left = acquire_left server.rate_limiter now in
        rw asked (elim (Bool-cases served) [
          | inr free ↦ rw free (omega (arith, left))
          | inl paid ↦ rw paid (omega (arith, (rw (served-acquired paid) at left)))
        ])
  ]

module _ (w : Web) (from_slice : String → Option Value) where
  respond_all_left :
      (server : Server) (now : ℕ) (reqs : List (ℕ × Incoming))
      → All (λ p. p.0 ≡ now) reqs
      → (respond_all w from_slice server reqs).1 * one_token
        ≤ (refill server.rate_limiter now).tokens
  unfolding respond_all
  respond_all_left server now [] _ = omega arith
  respond_all_left server now ((t, req) ∷ reqs) (at_once, rest) =
      let left = respond_left w from_slice server now req in
      let ih = respond_all_left (after w from_slice server now req) now reqs rest in
      rw at_once (elim (Bool-cases (served w from_slice server now req)) [
        | inl paid ↦ rw paid (omega (arith, ih, (rw paid at left)))
        | inr free ↦ rw free (omega (arith, ih, (rw free at left)))
      ])

  -- Of requests at one time, those for other paths than `/health` that come to a handler are at most as
  -- many as the bucket can hold, whatever it holds and however long it has been filled.
  pub respond_all-max_tokens :
      (server : Server) (now : ℕ) (reqs : List (ℕ × Incoming))
      → All (λ p. p.0 ≡ now) reqs
      → (respond_all w from_slice server reqs).1 * one_token ≤ server.rate_limiter.max_tokens
  unfolding refill
  respond_all-max_tokens server now reqs at_once =
      omega (arith, respond_all_left server now reqs at_once)
