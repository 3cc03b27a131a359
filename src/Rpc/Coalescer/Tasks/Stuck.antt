-- ===== src/Rpc/Coalescer/Tasks/Stuck.antt =====
-- What a dropped task leaves behind: its sender stays in the map.
use poolbeg.Prelude.{
  ℕ, ◌≡◌, ◌≢◌, refl, sym, subst, ap, ◌∙◌, inl, inr, true, false, Option, none, some, String, str_eq,
  eq_iff, ◌==◌, Bool-cases, arith,
}
use native.Mathlib.Decide.{ℕ_discrete}
use poolbeg.Rpc.Types.{JsonRpcResponse}
use poolbeg.Rpc.Codec.{Codec}
use poolbeg.Rpc.Coalescer.Tasks.{
  Phase, asking, missed, executing, cancelled, waiting, sent, finished, State, at, at_key, deliver,
  enter, is_suspended, Step, miss, join, receive, garbled, closed, insert, send, remove, cancel,
  Reach, here, next, start,
}
use poolbeg.Rpc.Coalescer.Tasks.Shared.{at_self, at-ne}

-- Before its look-up, in wait for the channel `c` with nothing received, or dropped.
abbrev pub Idle : ℕ → Phase → Type 0
Idle c asking = Unit {0}
Idle c cancelled = Unit {0}
Idle c (waiting d none) = d ≡ c
Idle c _ = ⊥

module _ (codec : Codec) (key : ℕ → String) (k : String) (c : ℕ) where
  -- The map leads the key to a dropped task, and no other task with the key gets further than to wait.
  abbrev IsDead : State → Type 0
  IsDead s =
      (s.in_flight k ≡ some c)
      × (s.phase c ≡ cancelled)
      × ((t : ℕ) → key t ≡ k → Idle c (s.phase t))

  other_task : (s : State) (t : ℕ) (p : Phase) → IsDead s → s.phase t ≡ p → p ≢ cancelled → c ≢ t
  other_task s t p (_, e, _) g ne same = ne (sym g ∙ (ap s.phase (sym same) ∙ e))

  -- A task moves on, and the map keeps the key.
  moves :
      (s : State) (t : ℕ) (p : Phase) (m : String → Option ℕ) (ex : ℕ → Option JsonRpcResponse)
      → IsDead s
      → c ≢ t
      → m k ≡ some c
      → (key t ≡ k → Idle c p)
      → IsDead (record { in_flight = m; phase = at s.phase t p; executed = ex })
  moves s t p m ex (_, e, all) ne led idle = (
    led,
    at-ne s.phase t p c ne ∙ e,
    λ i same. elim (ℕ_discrete i t) [
      | yes g ↦
          subst (Idle c) (sym (ap (at s.phase t p) g ∙ at_self s.phase t p))
            (idle (subst (λ j. key j ≡ k) g same))
      | no other ↦ subst (Idle c) (sym (at-ne s.phase t p i other)) (all i same)
    ],
  )

  -- The phase of a task that is neither before its request nor in wait belongs to another key.
  key_differs :
      (s : State) (t : ℕ) (p : Phase) → IsDead s → s.phase t ≡ p → (Idle c p → ⊥) → key t ≢ k
  key_differs s t p (_, _, all) e busy same = busy (subst (Idle c) e (all t same))

  at_other_key :
      (s : State) (t : ℕ) (v : Option ℕ)
      → IsDead s
      → key t ≢ k
      → at_key s.in_flight (key t) v k ≡ some c
  at_other_key s t v (led, _, _) ne = elim (Bool-cases (str_eq k (key t))) [
    | inl same ↦ absurd (ne (sym ((eq_iff k (key t)).0 same)))
    | inr other ↦ rw other led
  ]

  deliver-Idle :
      (t : ℕ) (text : Option String) (p : Phase) → c ≢ t → Idle c p → Idle c (deliver t text p)
  unfolding deliver
  deliver-Idle t none p ne h = h
  deliver-Idle t (some text) asking ne h = tt
  deliver-Idle t (some text) cancelled ne h = tt
  deliver-Idle t (some text) (waiting d none) ne h =
      let other : (d == t) ≡ false = ground arith in rw other h
  deliver-Idle t (some text) (waiting d (some old)) ne h = h
  deliver-Idle t (some text) missed ne h = h
  deliver-Idle t (some text) executing ne h = h
  deliver-Idle t (some text) (sent r) ne h = h
  deliver-Idle t (some text) (finished r) ne h = h

  delivered :
      (t : ℕ) (text : Option String) (p : Phase)
      → c ≢ t
      → p ≡ cancelled
      → deliver t text p ≡ cancelled
  unfolding deliver
  delivered t none p ne h = h
  delivered t (some text) p ne h = rw h

  send-IsDead :
      (s : State) (t : ℕ) (resp : JsonRpcResponse) (text : Option String)
      (ex : ℕ → Option JsonRpcResponse)
      → IsDead s
      → s.phase t ≡ executing
      → IsDead (record {
        in_flight = s.in_flight;
        phase = at (λ i. deliver t text (s.phase i)) t (sent resp);
        executed = ex;
      })
  send-IsDead s t resp text ex dead e =
      let ne = other_task s t executing dead e (λ h. absurd (cc)) in
      moves
        (record { in_flight = s.in_flight; phase = λ i. deliver t text (s.phase i); executed = ex })
        t (sent resp) s.in_flight ex
        (
          dead.0,
          delivered t text (s.phase c) ne dead.1,
          λ i same. deliver-Idle t text (s.phase i) ne (dead.2 i same),
        )
        ne dead.0 (key_differs s t executing dead e (λ h. h))

  suspended_no_cancel : (p : Phase) → is_suspended p ≡ true → p ≢ cancelled
  unfolding is_suspended
  suspended_no_cancel asking h e = absurd (cc)
  suspended_no_cancel missed h e = absurd (cc)
  suspended_no_cancel executing h e = absurd (cc)
  suspended_no_cancel cancelled h e = absurd (cc)
  suspended_no_cancel (waiting d m) h e = absurd (cc)
  suspended_no_cancel (sent r) h e = absurd (cc)
  suspended_no_cancel (finished r) h e = absurd (cc)

  Step-IsDead : {s u : State} → Step codec key s u → IsDead s → IsDead u
  Step-IsDead {s} (miss t e g) d =
      moves s t missed s.in_flight s.executed d (other_task s t asking d e (λ h. absurd (cc))) d.0
        (λ same. let led : s.in_flight (key t) ≡ some c = rw same d.0 in absurd (cc))
  Step-IsDead {s} (join t b e g) d =
      moves s t (waiting b none) s.in_flight s.executed d
        (other_task s t asking d e (λ h. absurd (cc))) d.0
        (λ same. let led : s.in_flight (key t) ≡ some c = rw same d.0 in cc)
  Step-IsDead {s} (receive t b text resp e g) d =
      moves s t (finished resp) s.in_flight s.executed d
        (other_task s t (waiting b (some text)) d e (λ h. absurd (cc))) d.0
        (key_differs s t (waiting b (some text)) d e (λ h. h))
  Step-IsDead {s} (garbled t b text e g) d =
      moves s t missed s.in_flight s.executed d
        (other_task s t (waiting b (some text)) d e (λ h. absurd (cc))) d.0
        (key_differs s t (waiting b (some text)) d e (λ h. h))
  Step-IsDead {s} (closed t b e g) d =
      moves s t missed s.in_flight s.executed d
        (other_task s t (waiting b none) d e (λ h. absurd (cc))) d.0
        (λ same.
          let here_too : b ≡ c = subst (Idle c) e (d.2 t same) in g (inl (rw (same, here_too) d.0)))
  Step-IsDead {s} (insert t e) d =
      let other = key_differs s t missed d e (λ h. h) in
      moves s t executing (at_key s.in_flight (key t) (some t)) s.executed d
        (other_task s t missed d e (λ h. absurd (cc))) (at_other_key s t (some t) d other)
        (λ same. absurd (other same))
  Step-IsDead {s} (send t resp e) d =
      send-IsDead s t resp (codec.encode_response resp) (at s.executed t (some resp)) d e
  Step-IsDead {s} (remove t resp e) d =
      let other = key_differs s t (sent resp) d e (λ h. h) in
      moves s t (finished resp) (at_key s.in_flight (key t) none) s.executed d
        (other_task s t (sent resp) d e (λ h. absurd (cc))) (at_other_key s t none d other)
        (λ same. absurd (other same))
  Step-IsDead {s} (cancel t e) d =
      moves s t cancelled s.in_flight s.executed d
        (other_task s t (s.phase t) d refl (suspended_no_cancel (s.phase t) e)) d.0 (λ same. tt)

  Reach-IsDead : {s u : State} → IsDead s → Reach codec key s u → IsDead u
  Reach-IsDead d here = d
  Reach-IsDead d (next r st) = Step-IsDead st (Reach-IsDead d r)

module _ (codec : Codec) (key : ℕ → String) where
  cancel-IsDead :
      (s : State) (t : ℕ)
      → s.in_flight (key t) ≡ some t
      → ((i : ℕ) → key i ≡ key t → i ≢ t → Idle t (s.phase i))
      → IsDead codec key (key t) t (enter s t cancelled)
  cancel-IsDead s t led others = (
    led,
    at_self s.phase t cancelled,
    λ i same. elim (ℕ_discrete i t) [
      | yes e ↦
          subst (Idle t) (sym (ap (enter s t cancelled).phase e ∙ at_self s.phase t cancelled)) tt
      | no ne ↦ subst (Idle t) (sym (at-ne s.phase t cancelled i ne)) (others i same ne)
    ],
  )

  -- In a state in which the map leads a key to a task that executes, and each other task with the key is
  -- before its look-up, was dropped, or waits for that task with nothing received: if the client of the
  -- task leaves, its task can be dropped there, and from the state that this leaves behind no sequence of
  -- steps lets a task with the key finish.
  pub cancel-blocks :
      (s : State) (t : ℕ)
      → s.phase t ≡ executing
      → s.in_flight (key t) ≡ some t
      → ((i : ℕ) → key i ≡ key t → i ≢ t → Idle t (s.phase i))
      → Step codec key s (enter s t cancelled)
        × ((u : State) (v : ℕ) (resp : JsonRpcResponse)
            → Reach codec key (enter s t cancelled) u
            → key v ≡ key t
            → u.phase v ≢ finished resp)
  unfolding is_suspended
  cancel-blocks s t runs led others = (
    cancel t (ap is_suspended runs),
    λ u v resp r same e.
        subst (Idle t) e
          ((Reach-IsDead codec key (key t) t (cancel-IsDead s t led others) r).2 v same),
  )

  -- A task that begins alone comes to such a state.
  abbrev pub executes : ℕ → State
  executes t = record (enter start t missed) {
    in_flight = at_key start.in_flight (key t) (some t);
    phase = at (enter start t missed).phase t executing;
  }
