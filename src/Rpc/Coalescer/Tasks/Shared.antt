-- ===== src/Rpc/Coalescer/Tasks/Shared.antt =====
-- Whose response a task returns, whatever the order of the steps.
use poolbeg.Prelude.{
  ℕ, ◌≡◌, ◌≢◌, refl, sym, subst, ◌∙◌, ◌⊎◌, inl, inr, Option, none, some, String, str_eq, eq_iff,
  ◌==◌, Bool-cases, arith,
}
use native.Mathlib.Decide.{ℕ_discrete}
use poolbeg.Rpc.Types.{JsonRpcResponse}
use poolbeg.Rpc.Codec.{Codec}
use poolbeg.Rpc.Coalescer.Tasks.{
  Phase, asking, missed, executing, cancelled, waiting, sent, finished, State, at, at_key, deliver,
  enter, Step, miss, join, receive, garbled, closed, insert, send, remove, cancel, Reach, here,
  next, start,
}

pub at_self {ℓ} : {A : Type ℓ} (f : ℕ → A) (t : ℕ) (v : A) → at f t v t ≡ v
at_self f t v = ground arith

pub at-ne {ℓ} : {A : Type ℓ} (f : ℕ → A) (t : ℕ) (v : A) (i : ℕ) → i ≢ t → at f t v i ≡ f i
at-ne f t v i ne = ground arith

module _ (codec : Codec) (key : ℕ → String) where
  -- What the task `t` returns, `resp`, is what its own closure returned, or is read from the text of what
  -- the closure of another task with the same key returned.
  abbrev pub Shared : (ℕ → Option JsonRpcResponse) → ℕ → JsonRpcResponse → Type 0
  Shared executed t resp =
      (executed t ≡ some resp)
      ⊎ ((u : ℕ) × (original : JsonRpcResponse) × (text : String) × (key u ≡ key t)
          × (executed u ≡ some original)
          × (codec.encode_response original ≡ some text)
          × (codec.decode_response text ≡ some resp))

  abbrev Mailed : (ℕ → Option JsonRpcResponse) → ℕ → Option String → Type 0
  Mailed executed c none = Unit {0}
  Mailed executed c (some text) =
      (original : JsonRpcResponse) × (executed c ≡ some original)
      × (codec.encode_response original ≡ some text)

  -- What the phase of the task `t` says about the closures that have run.
  abbrev Good : (ℕ → Option JsonRpcResponse) → ℕ → Phase → Type 0
  Good executed t asking = executed t ≡ none
  Good executed t missed = executed t ≡ none
  Good executed t executing = executed t ≡ none
  Good executed t cancelled = Unit {0}
  Good executed t (waiting c mail) = (executed t ≡ none) × (key c ≡ key t) × Mailed executed c mail
  Good executed t (sent resp) = executed t ≡ some resp
  Good executed t (finished resp) = Shared executed t resp

  -- The map leads to tasks with its key, and every task's phase is good.
  abbrev pub IsSound : State → Type 0
  IsSound s =
      ((k : String) (c : ℕ) → s.in_flight k ≡ some c → key c ≡ k)
      × ((t : ℕ) → Good s.executed t (s.phase t))

  Good-at :
      (executed : ℕ → Option JsonRpcResponse) (phase : ℕ → Phase) (t : ℕ) (p : Phase)
      → ((i : ℕ) → Good executed i (phase i))
      → Good executed t p
      → (i : ℕ) → Good executed i (at phase t p i)
  Good-at executed phase t p all new i = elim (ℕ_discrete i t) [
    | yes e ↦
        subst (λ j. Good executed j (at phase t p j)) (sym e)
          (subst (Good executed t) (sym (at_self phase t p)) new)
    | no ne ↦ subst (Good executed i) (sym (at-ne phase t p i ne)) (all i)
  ]

  of_phase : (s : State) (t : ℕ) (p : Phase) → IsSound s → s.phase t ≡ p → Good s.executed t p
  of_phase s t p sound e = subst (Good s.executed t) e (sound.1 t)

  enter-IsSound :
      (s : State) (t : ℕ) (p : Phase) → IsSound s → Good s.executed t p → IsSound (enter s t p)
  enter-IsSound s t p sound new = (sound.0, Good-at s.executed s.phase t p sound.1 new)

  map_entered :
      (s : State) (t : ℕ)
      → IsSound s
      → (k : String) (c : ℕ) → at_key s.in_flight (key t) (some t) k ≡ some c
      → key c ≡ k
  map_entered s t sound k c e = elim (Bool-cases (str_eq k (key t))) [
    | inl same ↦
        let mine : some t ≡ some c = rw same at e in ground (arith, eq_iff k (key t), mine, same)
    | inr other ↦ sound.0 k c (rw other at e)
  ]

  map_removed :
      (s : State) (t : ℕ)
      → IsSound s
      → (k : String) (c : ℕ) → at_key s.in_flight (key t) none k ≡ some c
      → key c ≡ k
  map_removed s t sound k c e = elim (Bool-cases (str_eq k (key t))) [
    | inl same ↦ let gone : none ≡ some c = rw same at e in absurd (cc)
    | inr other ↦ sound.0 k c (rw other at e)
  ]

  -- What a closure returns does not change what was known of the others.
  module _ (executed : ℕ → Option JsonRpcResponse) (t : ℕ) (resp : JsonRpcResponse)
      (new : executed t ≡ none) where
    abbrev after : ℕ → Option JsonRpcResponse
    after = at executed t (some resp)

    kept : (u : ℕ) (o : JsonRpcResponse) → executed u ≡ some o → after u ≡ some o
    kept u o e = elim (ℕ_discrete u t) [
      | yes same ↦ let both : executed u ≡ none = rw same new in absurd (cc)
      | no ne ↦ at-ne executed t (some resp) u ne ∙ e
    ]

    Mailed-kept : (c : ℕ) (mail : Option String) → Mailed executed c mail → Mailed after c mail
    Mailed-kept c none h = tt
    Mailed-kept c (some text) (o, e, g) = (o, kept c o e, g)

    Good-kept : (i : ℕ) (p : Phase) → i ≢ t → Good executed i p → Good after i p
    Good-kept i asking ne h = at-ne executed t (some resp) i ne ∙ h
    Good-kept i missed ne h = at-ne executed t (some resp) i ne ∙ h
    Good-kept i executing ne h = at-ne executed t (some resp) i ne ∙ h
    Good-kept i cancelled ne h = tt
    Good-kept i (waiting c mail) ne (h, k, m) =
        (at-ne executed t (some resp) i ne ∙ h, k, Mailed-kept c mail m)
    Good-kept i (sent r) ne h = kept i r h
    Good-kept i (finished r) ne (inl h) = inl (kept i r h)
    Good-kept i (finished r) ne (inr (u, o, text, k, e, g, d)) =
        inr (u, o, text, k, kept u o e, g, d)

    Good-deliver :
        (i : ℕ) (p : Phase) (text : Option String)
        → codec.encode_response resp ≡ text
        → i ≢ t
        → Good executed i p
        → Good after i (deliver t text p)
    unfolding deliver
    Good-deliver i p none g ne h = Good-kept i p ne h
    Good-deliver i asking (some text) g ne h = Good-kept i asking ne h
    Good-deliver i missed (some text) g ne h = Good-kept i missed ne h
    Good-deliver i executing (some text) g ne h = Good-kept i executing ne h
    Good-deliver i cancelled (some text) g ne h = tt
    Good-deliver i (sent r) (some text) g ne h = Good-kept i (sent r) ne h
    Good-deliver i (finished r) (some text) g ne h = Good-kept i (finished r) ne h
    Good-deliver i (waiting c (some old)) (some text) g ne h =
        Good-kept i (waiting c (some old)) ne h
    Good-deliver i (waiting c none) (some text) g ne h = elim (Bool-cases (c == t)) [
      | inr other ↦ rw other (Good-kept i (waiting c none) ne h)
      | inl same ↦
          let e : c ≡ t = ground arith in
          rw same (
            at-ne executed t (some resp) i ne ∙ h.0,
            h.1,
            (resp, rw e (at_self executed t (some resp)), g),
          )
    ]

  send-IsSound :
      (s : State) (t : ℕ) (resp : JsonRpcResponse)
      → IsSound s
      → s.phase t ≡ executing
      → IsSound (record s {
        phase = at (λ i. deliver t (codec.encode_response resp) (s.phase i)) t (sent resp);
        executed = at s.executed t (some resp);
      })
  send-IsSound s t resp sound e = (sound.0, all)
    where
      all :
          (i : ℕ)
          → Good
              (at s.executed t (some resp))
              i
              (at (λ j. deliver t (codec.encode_response resp) (s.phase j)) t (sent resp) i)
      all i = elim (ℕ_discrete i t) [
        | yes same ↦ rw same (
            subst (Good (at s.executed t (some resp)) t)
              (sym
                (at_self (λ j. deliver t (codec.encode_response resp) (s.phase j)) t (sent resp)))
              (at_self s.executed t (some resp)))
        | no ne ↦
            subst (Good (at s.executed t (some resp)) i)
              (sym (
                at-ne (λ j. deliver t (codec.encode_response resp) (s.phase j)) t (sent resp) i ne))
              (Good-deliver s.executed t resp (of_phase s t executing sound e) i (s.phase i)
                (codec.encode_response resp) refl ne (sound.1 i))
      ]

  Step-IsSound : {s u : State} → Step codec key s u → IsSound s → IsSound u
  Step-IsSound {s} (miss t e g) h = enter-IsSound s t missed h (of_phase s t asking h e)
  Step-IsSound {s} (join t c e g) h =
      enter-IsSound s t (waiting c none) h (of_phase s t asking h e, h.0 (key t) c g, tt)
  Step-IsSound {s} (receive t c text resp e g) h =
      let (_, k, (o, a, b)) = of_phase s t (waiting c (some text)) h e in
      enter-IsSound s t (finished resp) h (inr (c, o, text, k, a, b, g))
  Step-IsSound {s} (garbled t c text e g) h =
      enter-IsSound s t missed h (of_phase s t (waiting c (some text)) h e).0
  Step-IsSound {s} (closed t c e g) h =
      enter-IsSound s t missed h (of_phase s t (waiting c none) h e).0
  Step-IsSound {s} (insert t e) h =
      (map_entered s t h, Good-at s.executed s.phase t executing h.1 (of_phase s t missed h e))
  Step-IsSound {s} (send t resp e) h = send-IsSound s t resp h e
  Step-IsSound {s} (remove t resp e) h = (
    map_removed s t h,
    Good-at s.executed s.phase t (finished resp) h.1 (inl (of_phase s t (sent resp) h e)),
  )
  Step-IsSound {s} (cancel t e) h = enter-IsSound s t cancelled h tt

  pub Reach-IsSound : {s u : State} → IsSound s → Reach codec key s u → IsSound u
  Reach-IsSound h here = h
  Reach-IsSound h (next r st) = Step-IsSound st (Reach-IsSound h r)

  -- However the steps of the tasks interleave, a task that finishes returns what its own closure
  -- returned, or what is read from the text of what the closure of a task with the same key returned.
  pub Reach-Shared :
      (s : State) (t : ℕ) (resp : JsonRpcResponse)
      → Reach codec key start s
      → s.phase t ≡ finished resp
      → Shared s.executed t resp
  Reach-Shared s t resp r e =
      let sound : IsSound start = ((λ k c h. absurd (cc)), λ i. refl) in
      of_phase s t (finished resp) (Reach-IsSound sound r) e
