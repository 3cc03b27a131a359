-- ===== src/Ws/Connections/Counted.antt =====
-- The count of connections, and the limit.
use poolbeg.Prelude.{
  ℕ, zero, suc, ◌+◌, ◌-◌, ◌%◌, ◌<◌, ◌≡◌, refl, ap, subst, ◌∙◌, true, u64_mod, arith,
}
use poolbeg.Ws.Handler.{handle_ws}
use poolbeg.Ws.Connections.{
  State, start, Step, accept, refuse, begin, abandon, finish, Reach, here, next,
}

abbrev IsCounted : State → Type 0
IsCounted s = s.count ≡ s.opened % u64_mod

up : (c n : ℕ) → c ≡ n % u64_mod → (c + 1) % u64_mod ≡ suc n % u64_mod
up c n e = omega (arith, e)

down : (c n : ℕ) → c ≡ suc n % u64_mod → (c + (u64_mod - 1)) % u64_mod ≡ n % u64_mod
down c n e = omega (arith, e)

module _ (max_ws : ℕ) where
  Step-IsCounted : {s u : State} → Step max_ws s u → IsCounted s → IsCounted u
  Step-IsCounted (accept e) h = h
  Step-IsCounted (refuse e) h = h
  Step-IsCounted {s} (begin n e) h = up s.count s.opened h
  Step-IsCounted (abandon n e) h = h
  Step-IsCounted {s} (finish n e) h = down s.count n (h ∙ ap (λ k. k % u64_mod) e)

  -- The count is the number of open connections, modulo 2 ^ 64, after any steps.
  pub Reach-count : (s : State) → Reach max_ws start s → s.count ≡ s.opened % u64_mod
  Reach-count s here = refl
  Reach-count s (next {u} r st) = Step-IsCounted st (Reach-count u r)

  abbrev accepted : ℕ → State
  accepted n = record start { upgrading = n }

  open_limit : 0 < max_ws → handle_ws max_ws 0 ≡ true
  unfolding handle_ws
  open_limit h = ground arith

  Reach-accepted : 0 < max_ws → (n : ℕ) → Reach max_ws start (accepted n)
  Reach-accepted h zero = here
  Reach-accepted h (suc n) = next (Reach-accepted h n) (accept (open_limit h))

  abbrev begun : ℕ → ℕ → State
  begun n k = record { upgrading = n; opened = k; count = k % u64_mod }

  Reach-begun : 0 < max_ws → (n k : ℕ) → Reach max_ws start (begun n k)
  Reach-begun h n zero = Reach-accepted h n
  Reach-begun h n (suc k) =
      subst (λ c. Reach max_ws start (record { upgrading = n; opened = suc k; count = c }))
        (up (k % u64_mod) k refl) (next (Reach-begun h (suc n) k) (begin n refl))

  -- The limit does not hold: if it is not zero, any number of connections can be open at once.
  pub Reach-unlimited : 0 < max_ws → (n : ℕ) → (s : State) × Reach max_ws start s × (s.opened ≡ n)
  Reach-unlimited h n = (begun 0 n, Reach-begun h 0 n, refl)
