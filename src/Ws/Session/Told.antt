-- ===== src/Ws/Session/Told.antt =====
-- What the dispatcher of a chain sends to one client, over a run of the tracker.
use poolbeg.Prelude.{
  ℕ, ◌≡◌, refl, ap, Bool, true, false, ◌&&◌, List, [], ◌∷◌, ◌++◌, String, ◌==◌, keep, map, All,
  Bool-cases, Option-cases, inl, inr, arith,
}
use poolbeg.Value.{Value, as_array}
use poolbeg.Config.{UpstreamStrategy}
use poolbeg.Rpc.Codec.{Codec}
use poolbeg.Cache.Redis.{Redis}
use poolbeg.Upstream.Tracker
use poolbeg.Upstream.Tracker.{BlockEvent, new_block, new_logs, reorg, Poll}
use poolbeg.Upstream.Tracker.Heads.{heights, Ascending}
use poolbeg.Upstream.Tracker.Announced.{run-Ascending}
use poolbeg.Upstream.Tracker.Own.{chain_of, Own, run-Own}
use poolbeg.Ws.Subscription.{
  SubscriptionType, new_heads, logs, new_pending_transactions, syncing, ClientSubscription,
  is_new_heads, is_logs, notification, dispatch_new_heads, wants, send_logs, dispatch_to,
  dispatch_logs, handle_event,
}
use poolbeg.Ws.Session.{received, run}

-- The headers that new heads are announced with.
unfoldable pub headers : List BlockEvent → List Value
headers [] = []
headers (new_block c h hash header ∷ es) = header ∷ headers es
headers (new_logs c h entries ∷ es) = headers es
headers (reorg c a b ∷ es) = headers es

keep-append :
    {A : Type 0} (p : A → Bool) (xs ys : List A) → keep p (xs ++ ys) ≡ keep p xs ++ keep p ys
keep-append p [] ys = refl
keep-append p (x ∷ xs) ys = elim (Bool-cases (p x)) [
  | inl e ↦ rw e (ap (λ t. x ∷ t) (keep-append p xs ys))
  | inr e ↦ rw e (keep-append p xs ys)
]

==-refl : (n : ℕ) → (n == n) ≡ true
==-refl n = ground arith

-- What is sent to the channel `tx`.
abbrev pub told : ℕ → List (ℕ × Value) → List (ℕ × Value)
told tx sent = keep (λ m. m.0 == tx) sent

-- The channel is none of these subscriptions'.
abbrev pub Others : ℕ → List (String × ClientSubscription) → Type 0
Others tx subs = All (λ p. (p.1.tx == tx) ≡ false) subs

module _ (to_lowercase : String → String) (live : ℕ → Bool) (tx : ℕ) where
  told-send_logs :
      (sub : ClientSubscription) (ls : List Value)
      → (sub.tx == tx) ≡ false
      → told tx (send_logs to_lowercase live sub ls) ≡ []
  unfolding send_logs
  told-send_logs sub [] e = refl
  told-send_logs sub (log ∷ ls) e =
      let rest = told-send_logs sub ls e in
      elim (Bool-cases (wants to_lowercase live sub log)) [
        | inl f ↦ elim (Bool-cases (live sub.tx)) [
          | inl g ↦ rw f (rw g (rw e rest))
          | inr g ↦ rw f (rw g refl)
        ]
        | inr f ↦ rw f rest
      ]

  -- No logs for a client whose only subscription is for heads.
  told-dispatch_to :
      (ls : List Value) (subs : List (String × ClientSubscription))
      → All (λ p. (is_logs p.1.sub_type && (p.1.tx == tx)) ≡ false) subs
      → told tx (dispatch_to to_lowercase live ls subs) ≡ []
  unfolding dispatch_to
  told-dispatch_to ls [] h = refl
  told-dispatch_to ls ((k, sub) ∷ subs) (e, h) =
      let rest = told-dispatch_to ls subs h in
      elim (Bool-cases (is_logs sub.sub_type)) [
        | inl f ↦
            let other : (sub.tx == tx) ≡ false = ground (arith, e, f) in
            rw f (
              rw
                (keep-append (λ m. m.0 == tx) (send_logs to_lowercase live sub ls)
                  (dispatch_to to_lowercase live ls subs))
                (rw (told-send_logs sub ls other) rest))
        | inr f ↦ rw f rest
      ]

  heads_elsewhere :
      (header : Value) (subs : List (String × ClientSubscription))
      → Others tx subs
      → told tx (dispatch_new_heads to_lowercase live header subs) ≡ []
  unfolding dispatch_new_heads
  heads_elsewhere header [] h = refl
  heads_elsewhere header ((k, sub) ∷ subs) (e, h) =
      let rest = heads_elsewhere header subs h in
      elim (Bool-cases (is_new_heads sub.sub_type && live sub.tx)) [
        | inl f ↦ rw f (rw e rest)
        | inr f ↦ rw f rest
      ]

heads_not_logs : (s : SubscriptionType) → is_new_heads s ≡ true → is_logs s ≡ false
heads_not_logs new_heads e = refl
heads_not_logs logs e = absurd (cc)
heads_not_logs new_pending_transactions e = refl
heads_not_logs syncing e = refl

module _ (to_lowercase : String → String) (live : ℕ → Bool) (k : String) (sub : ClientSubscription)
    (wanted : is_new_heads sub.sub_type ≡ true) (up : live sub.tx ≡ true) where
  told-dispatch_new_heads :
      (header : Value) (before after : List (String × ClientSubscription))
      → Others sub.tx before
      → Others sub.tx after
      → told sub.tx (dispatch_new_heads to_lowercase live header (before ++ ((k, sub) ∷ after)))
        ≡ (sub.tx, notification sub.subscription_id header) ∷ []
  unfolding dispatch_new_heads
  told-dispatch_new_heads header [] after h g = rw wanted (
      rw up (
        rw (==-refl sub.tx) (
          ap (λ t. (sub.tx, notification sub.subscription_id header) ∷ t)
            (heads_elsewhere to_lowercase live sub.tx header after g))))
  told-dispatch_new_heads header ((j, other) ∷ before) after (e, h) g =
      let rest = told-dispatch_new_heads header before after h g in
      elim (Bool-cases (is_new_heads other.sub_type && live other.tx)) [
        | inl f ↦ rw f (rw e rest)
        | inr f ↦ rw f rest
      ]

  no_logs :
      (before after : List (String × ClientSubscription))
      → Others sub.tx before
      → Others sub.tx after
      → All
          (λ p. (is_logs p.1.sub_type && (p.1.tx == sub.tx)) ≡ false)
          (before ++ ((k, sub) ∷ after))
  no_logs [] after h g = (rw (heads_not_logs sub.sub_type wanted) refl, none_of after g)
    where
      none_of :
          (subs : List (String × ClientSubscription))
          → Others sub.tx subs
          → All (λ p. (is_logs p.1.sub_type && (p.1.tx == sub.tx)) ≡ false) subs
      none_of [] g = tt
      none_of (p ∷ subs) (e, g) = (ground (arith, e), none_of subs g)
  no_logs (p ∷ before) after (e, h) g = (ground (arith, e), no_logs before after h g)

  module _ (own : ℕ) (before after : List (String × ClientSubscription)) (h : Others sub.tx before)
      (g : Others sub.tx after) where
    told-dispatch_logs :
        (entries : Value)
        → told sub.tx (dispatch_logs to_lowercase live entries (before ++ ((k, sub) ∷ after))) ≡ []
    unfolding dispatch_logs
    told-dispatch_logs entries = elim (Option-cases (as_array entries)) [
      | inl e ↦ rw (e, dispatch_logs) refl
      | inr (ls, e) ↦
          rw (e, dispatch_logs)
            (told-dispatch_to to_lowercase live sub.tx ls (before ++ ((k, sub) ∷ after))
              (no_logs before after h g))
    ]

    told-run :
        (es : List BlockEvent)
        → Own own es
        → told sub.tx (run to_lowercase live own (map received es) (before ++ ((k, sub) ∷ after)))
          ≡ map (λ header. (sub.tx, notification sub.subscription_id header)) (headers es)
    unfolding run handle_event headers chain_of
    told-run [] o = refl
    told-run (new_block c n hash header ∷ es) (o, os) =
        let rest = told-run es os in
        let here : (c == own) ≡ true = ground arith in
        let subs = before ++ ((k, sub) ∷ after) in
        rw here (
          rw
            (keep-append (λ m. m.0 == sub.tx) (dispatch_new_heads to_lowercase live header subs)
              (run to_lowercase live own (map received es) subs))
            (rw (told-dispatch_new_heads header before after h g)
              (ap (λ t. (sub.tx, notification sub.subscription_id header) ∷ t) rest)))
    told-run (new_logs c n entries ∷ es) (o, os) =
        let rest = told-run es os in
        let here : (c == own) ≡ true = ground arith in
        let subs = before ++ ((k, sub) ∷ after) in
        rw here (
          rw
            (keep-append (λ m. m.0 == sub.tx) (dispatch_logs to_lowercase live entries subs)
              (run to_lowercase live own (map received es) subs))
            (rw (told-dispatch_logs entries) rest))
    told-run (reorg c a b ∷ es) (o, os) = told-run es os

module _ (r : Redis) (codec : Codec) (chain_id : ℕ) (strategy : UpstreamStrategy) where
  -- A client that is there, with a subscription for new heads and no other on its channel, while the
  -- tracker of the chain runs, the subscriptions stay as they are and the dispatcher misses no event: it
  -- is sent the header of each head that the tracker announces, once each, in order and under the id of
  -- its subscription, and nothing else; and the numbers of the heads ascend.
  pub run-headers :
      (to_lowercase : String → String) (live : ℕ → Bool) (k : String) (sub : ClientSubscription)
      (before after : List (String × ClientSubscription)) (xs : List Poll)
      (t : Tracker.Tracker r.State)
      → is_new_heads sub.sub_type ≡ true
      → live sub.tx ≡ true
      → Others sub.tx before
      → Others sub.tx after
      → let es = (Tracker.run r codec chain_id strategy xs t).1 in
        (told sub.tx
            (run to_lowercase live chain_id (map received es) (before ++ ((k, sub) ∷ after)))
          ≡ map (λ header. (sub.tx, notification sub.subscription_id header)) (headers es))
        × Ascending t.tracking.last_block_number (heights es)
  run-headers to_lowercase live k sub before after xs t wanted up h g = (
    told-run to_lowercase live k sub wanted up chain_id before after h g
        (Tracker.run r codec chain_id strategy xs t).1 (run-Own chain_id r codec strategy xs t),
    run-Ascending r codec chain_id strategy xs t,
  )
