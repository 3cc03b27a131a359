-- ===== src/Rpc/Coalescer/Tasks/Progress.antt =====
-- Where no task is dropped, no waiting task is left alone.
use poolbeg.Prelude.{
  ℕ, ◌≡◌, ◌≢◌, refl, sym, subst, ap, ◌∙◌, ◌⊎◌, inl, inr, Option, none, some, String, str_eq, eq_iff,
  Bool-cases, arith,
}
use native.Mathlib.Decide.{ℕ_discrete}
use poolbeg.Rpc.Types.{JsonRpcResponse}
use poolbeg.Rpc.Codec.{Codec}
use poolbeg.Rpc.Coalescer.Tasks.{
  Phase, asking, missed, executing, cancelled, waiting, sent, finished, State, at, at_key, deliver,
  enter, Held, Step, miss, join, receive, garbled, closed, insert, send, remove, cancel, Reach,
  here, next, start,
}
use poolbeg.Rpc.Coalescer.Tasks.Shared.{at_self, at-ne}

-- The task has its key in the map: it executes, has just sent, or was dropped.
abbrev Leads : Phase → Type 0
Leads executing = Unit {0}
Leads (sent resp) = Unit {0}
Leads cancelled = Unit {0}
Leads _ = ⊥

module _ (codec : Codec) (key : ℕ → String) where
  abbrev IsLed : State → Type 0
  IsLed s = (k : String) (c : ℕ) → s.in_flight k ≡ some c → (key c ≡ k) × Leads (s.phase c)

  -- A step that leaves the map as it is, of a task that the map does not lead to or that still leads.
  IsLed-at :
      (m : String → Option ℕ) (phase : ℕ → Phase) (t : ℕ) (p : Phase)
      → ((k : String) (c : ℕ) → m k ≡ some c → (key c ≡ k) × Leads (phase c))
      → (Leads (phase t) → Leads p)
      → (k : String) (c : ℕ) → m k ≡ some c
      → (key c ≡ k) × Leads (at phase t p c)
  IsLed-at m phase t p led keeps k c e = elim (ℕ_discrete c t) [
    | yes same ↦
        let now : Leads (phase t) = subst (λ i. Leads (phase i)) same (led k c e).1 in
        ((led k c e).0, subst Leads (sym (ap (at phase t p) same ∙ at_self phase t p)) (keeps now))
    | no ne ↦ ((led k c e).0, subst Leads (sym (at-ne phase t p c ne)) (led k c e).1)
  ]

  -- The phase of a task that is not led to.
  no_lead :
      (s : State) (t : ℕ) (p : Phase)
      → s.phase t ≡ p
      → (Leads p → ⊥)
      → (q : Phase) → Leads (s.phase t)
      → Leads q
  no_lead s t p e none_there q h = absurd (none_there (subst Leads e h))

  Leads-deliver : (t : ℕ) (text : Option String) (p : Phase) → Leads p → Leads (deliver t text p)
  unfolding deliver
  Leads-deliver t none p h = h
  Leads-deliver t (some text) executing h = tt
  Leads-deliver t (some text) (sent r) h = tt
  Leads-deliver t (some text) cancelled h = tt
  Leads-deliver t (some text) asking h = elim h [ ]
  Leads-deliver t (some text) missed h = elim h [ ]
  Leads-deliver t (some text) (waiting c m) h = elim h [ ]
  Leads-deliver t (some text) (finished r) h = elim h [ ]

  insert-IsLed :
      (s : State) (t : ℕ)
      → IsLed s
      → (k : String) (c : ℕ) → at_key s.in_flight (key t) (some t) k ≡ some c
      → (key c ≡ k) × Leads (at s.phase t executing c)
  insert-IsLed s t led k c e = elim (Bool-cases (str_eq k (key t))) [
    | inl same ↦
        let mine : some t ≡ some c = rw same at e in
        let t_c : c ≡ t = cc in
        (
          ground (arith, eq_iff k (key t), t_c, same),
          subst Leads (sym (ap (at s.phase t executing) t_c ∙ at_self s.phase t executing)) tt,
        )
    | inr other ↦ IsLed-at s.in_flight s.phase t executing led (λ h. tt) k c (rw other at e)
  ]

  remove-IsLed :
      (s : State) (t : ℕ) (resp : JsonRpcResponse)
      → IsLed s
      → (k : String) (c : ℕ) → at_key s.in_flight (key t) none k ≡ some c
      → (key c ≡ k) × Leads (at s.phase t (finished resp) c)
  remove-IsLed s t resp led k c e = elim (Bool-cases (str_eq k (key t))) [
    | inl same ↦ let gone : none ≡ some c = rw same at e in absurd (cc)
    | inr other ↦
        let there : s.in_flight k ≡ some c = rw other at e in
        let ne : c ≢ t = λ g.
          let own : key t ≡ k = subst (λ i. key i ≡ k) g (led k c there).0 in
          absurd (ground (arith, eq_iff k (key t), own, other)) in
        (
          (led k c there).0,
          subst Leads (sym (at-ne s.phase t (finished resp) c ne)) (led k c there).1,
        )
  ]

  Step-IsLed : {s u : State} → Step codec key s u → IsLed s → IsLed u
  Step-IsLed {s} (miss t e g) h =
      IsLed-at s.in_flight s.phase t missed h (no_lead s t asking e (λ x. x) missed)
  Step-IsLed {s} (join t c e g) h =
      IsLed-at s.in_flight s.phase t (waiting c none) h
        (no_lead s t asking e (λ x. x) (waiting c none))
  Step-IsLed {s} (receive t c text resp e g) h =
      IsLed-at s.in_flight s.phase t (finished resp) h
        (no_lead s t (waiting c (some text)) e (λ x. x) (finished resp))
  Step-IsLed {s} (garbled t c text e g) h =
      IsLed-at s.in_flight s.phase t missed h
        (no_lead s t (waiting c (some text)) e (λ x. x) missed)
  Step-IsLed {s} (closed t c e g) h =
      IsLed-at s.in_flight s.phase t missed h (no_lead s t (waiting c none) e (λ x. x) missed)
  Step-IsLed {s} (insert t e) h = insert-IsLed s t h
  Step-IsLed {s} (send t resp e) h =
      IsLed-at s.in_flight (λ i. deliver t (codec.encode_response resp) (s.phase i)) t (sent resp)
        (λ k c led.
          ((h k c led).0, Leads-deliver t (codec.encode_response resp) (s.phase c) (h k c led).1))
        (λ x. tt)
  Step-IsLed {s} (remove t resp e) h = remove-IsLed s t resp h
  Step-IsLed {s} (cancel t e) h = IsLed-at s.in_flight s.phase t cancelled h (λ x. tt)

  Reach-IsLed : {s : State} → Reach codec key start s → IsLed s
  Reach-IsLed here = λ k c e. absurd (cc)
  Reach-IsLed (next r st) = Step-IsLed st (Reach-IsLed r)

  Leads-cases :
      (p : Phase)
      → (p ≡ cancelled)
        ⊎ (((p ≡ executing) ⊎ ((resp : JsonRpcResponse) × (p ≡ sent resp))) ⊎ (Leads p → ⊥))
  Leads-cases asking = inr (inr (λ h. h))
  Leads-cases missed = inr (inr (λ h. h))
  Leads-cases executing = inr (inl (inl refl))
  Leads-cases cancelled = inl refl
  Leads-cases (waiting c m) = inr (inr (λ h. h))
  Leads-cases (sent r) = inr (inl (inr (r, refl)))
  Leads-cases (finished r) = inr (inr (λ h. h))

  -- A task that waits for a task that was not dropped is not left alone: the other task executes or
  -- has just sent, or the waiting task can go on to make its own request.
  pub waiting-goes_on :
      (s : State) (t c : ℕ)
      → Reach codec key start s
      → s.phase t ≡ waiting c none
      → s.phase c ≢ cancelled
      → (s.phase c ≡ executing)
        ⊎ (((resp : JsonRpcResponse) × (s.phase c ≡ sent resp))
            ⊎ Step codec key s (enter s t missed))
  waiting-goes_on s t c r e alive = elim (Leads-cases (s.phase c)) [
    | inl gone ↦ absurd (alive gone)
    | inr (inl (inl busy)) ↦ inl busy
    | inr (inl (inr done)) ↦ inr (inl done)
    | inr (inr idle) ↦ inr (inr (closed t c e (λ held. idle (leads held))))
  ]
    where
      leads : Held s (key t) c → Leads (s.phase c)
      leads (inl m) = (Reach-IsLed r (key t) c m).1
      leads (inr (inl busy)) = subst Leads (sym busy) tt
      leads (inr (inr (resp, done))) = subst Leads (sym done) tt
