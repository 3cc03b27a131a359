-- ===== src/Server/Guarded.antt =====
-- What a request passes before a handler sees it.
use poolbeg.Prelude.{
  ℕ, ◌≡◌, refl, sym, ◌∙◌, ◌⊎◌, inl, inr, Bool, true, false, List, Option, none, some, String,
  str_eq, any, Bool-cases, Option-cases, arith,
}
use poolbeg.Value.{Value}
use poolbeg.Middleware.RateLimit.{
  RateLimiter, Limited, passed, refused, client_rate_limit, try_acquire,
}
use poolbeg.Middleware.Auth.{AuthRequest, auth_middleware, api_key}
use poolbeg.Server.{Web, Server, Incoming, Target, handled, routed, authenticated, respond}

abbrev is_health : Incoming → Bool
is_health req = str_eq req.head.path "/health"

-- Authentication is off, the request is a health check, or it brings one of the keys.
abbrev pub HasKey : Server → Incoming → Type 0
HasKey server req =
    (server.valid_keys ≡ none)
    ⊎ ((is_health req ≡ true)
        ⊎ ((keys : List String) × (k : String) × (server.valid_keys ≡ some keys)
            × (api_key req.head ≡ some k)
            × (any (λ v. str_eq v k) keys ≡ true)))

-- The request comes to the handler `t` with all guards passed.
abbrev pub IsAdmitted : Web → Server → ℕ → Incoming → Target → Type 0
IsAdmitted w server now req t =
    (w.too_large server.config.server.max_body_size req ≡ false)
    × ((is_health req ≡ true) ⊎ ((try_acquire server.rate_limiter now).1 ≡ true))
    × HasKey server req
    × (w.preflight req ≡ false)
    × (server.routes req ≡ some t)

routed-handled :
    (w : Web) (server : Server) (req : Incoming) (t : Target)
    → routed w server req ≡ handled t
    → (w.preflight req ≡ false) × (server.routes req ≡ some t)
unfolding routed
routed-handled w server req t e = ground arith

-- The keys that let a request through.
auth_middleware-passed :
    (keys : List String) (req : AuthRequest)
    → auth_middleware keys req ≡ none
    → (str_eq req.path "/health" ≡ true)
      ⊎ ((k : String) × (api_key req ≡ some k) × (any (λ v. str_eq v k) keys ≡ true))
unfolding auth_middleware
auth_middleware-passed keys req e = elim (Bool-cases (str_eq req.path "/health")) [
  | inl health ↦ inl health
  | inr other ↦ elim (Option-cases (api_key req)) [
    | inl missing ↦ absurd (ground arith)
    | inr (k, given) ↦ inr (k, given, accepted k given other)
  ]
]
  where
    accepted :
        (k : String)
        → api_key req ≡ some k
        → str_eq req.path "/health" ≡ false
        → any (λ v. str_eq v k) keys ≡ true
    accepted k given other = ground arith

authenticated-handled :
    (w : Web) (server : Server) (req : Incoming) (t : Target)
    → authenticated w server req ≡ handled t
    → HasKey server req × (routed w server req ≡ handled t)
unfolding authenticated
authenticated-handled w server req t e = elim (Option-cases server.valid_keys) [
  | inl off ↦ (inl off, rw (off, authenticated) at e)
  | inr (keys, set_up) ↦ elim (Option-cases (auth_middleware keys req.head)) [
    | inr (body, no_key) ↦ absurd (ground arith)
    | inl ok ↦ (
      inr (let_in keys set_up (auth_middleware-passed keys req.head ok)),
      sym (through keys set_up ok) ∙ e,
    )
  ]
]
  where
    through :
        (keys : List String)
        → server.valid_keys ≡ some keys
        → auth_middleware keys req.head ≡ none
        → authenticated w server req ≡ routed w server req
    through keys set_up ok = ground arith

    let_in :
        (keys : List String)
        → server.valid_keys ≡ some keys
        → (is_health req ≡ true)
          ⊎ ((k : String) × (api_key req.head ≡ some k) × (any (λ v. str_eq v k) keys ≡ true))
        → (is_health req ≡ true)
          ⊎ ((ks : List String) × (k : String) × (server.valid_keys ≡ some ks)
              × (api_key req.head ≡ some k)
              × (any (λ v. str_eq v k) ks ≡ true))
    let_in keys set_up (inl health) = inl health
    let_in keys set_up (inr (k, given, accepted)) = inr (keys, k, set_up, given, accepted)

Limited-cases : (l : Limited) → (l ≡ passed) ⊎ ((body : Value) × (l ≡ refused body))
Limited-cases passed = inl refl
Limited-cases (refused body) = inr (body, refl)

limit_passed :
    (from_slice : String → Option Value) (path body : String) (rl : RateLimiter) (now : ℕ)
    → (client_rate_limit from_slice path body rl now).1 ≡ passed
    → (str_eq path "/health" ≡ true) ⊎ ((try_acquire rl now).1 ≡ true)
unfolding client_rate_limit
limit_passed from_slice path body rl now e = ground arith

module _ (w : Web) (from_slice : String → Option Value) (server : Server) (now : ℕ) (req : Incoming)
    (t : Target) where
  abbrev verdict : Limited
  verdict = (client_rate_limit from_slice req.head.path req.body server.rate_limiter now).1

  respond_passed :
      w.too_large server.config.server.max_body_size req ≡ false
      → verdict ≡ passed
      → (respond w from_slice server now req).1 ≡ authenticated w server req
  unfolding respond
  respond_passed small ok = rw (small, respond) (rw ok)

  respond-inside :
      (respond w from_slice server now req).1 ≡ handled t
      → (w.too_large server.config.server.max_body_size req ≡ false)
        × (verdict ≡ passed)
        × (authenticated w server req ≡ handled t)
  unfolding respond
  respond-inside e = elim (Bool-cases (w.too_large server.config.server.max_body_size req)) [
    | inl big ↦ absurd (ground arith)
    | inr small ↦ elim (Limited-cases verdict) [
      | inr (body, over) ↦ absurd (ground arith)
      | inl ok ↦ (small, ok, sym (respond_passed small ok) ∙ e)
    ]
  ]

  -- A request reaches a handler only if its body is small enough, it is a health check or took a token
  -- of the limiter, it is a health check or brought one of the keys if there are keys, it is no
  -- preflight request, and the handler is that of the router.
  pub respond-IsAdmitted :
      (respond w from_slice server now req).1 ≡ handled t → IsAdmitted w server now req t
  respond-IsAdmitted e =
      let (small, ok, inner) = respond-inside e in
      let (key, last) = authenticated-handled w server req t inner in
      let (mine, found) = routed-handled w server req t last in
      (
        small,
        limit_passed from_slice req.head.path req.body server.rate_limiter now ok,
        key,
        mine,
        found,
      )
