-- ===== src/Ws/Subscription/Dispatch.antt =====
-- Who is sent what, and what becomes of the map of the subscriptions.
use poolbeg.Prelude.{
  ℕ, zero, suc, ◌≡◌, refl, ap, subst, ◌↔◌, Bool, true, List, [], ◌∷◌, Option, none, some, String,
  str_eq, eq_refl, if◌then◌else◌, any, keep, map, get_elem?, lookup, insert, lookup-insert,
  lookup-remove, Bool-cases, inl, inr, All, arith,
}
use poolbeg.Value.{Value}
use poolbeg.Ws.Subscription.{
  SubscriptionType, LogFilter, ClientSubscription, eq_ignore_ascii_case, topics_match, subscribe,
  unsubscribe, remove_client_subscriptions, notification, wants, send_logs,
}

-- At each position for which the filter lists values, the log has a topic that is one of them, up to case.
abbrev pub Fits : List (Option (List String)) → List String → Type 0
Fits fs ts =
    (i : ℕ) (values : List String)
    → get_elem? fs i ≡ some (some values)
    → (t : String) × (get_elem? ts i ≡ some t) × (any (λ f. eq_ignore_ascii_case f t) values ≡ true)

Fits-none_nil : (fs : List (Option (List String))) → Fits fs [] → Fits (none ∷ fs) []
Fits-none_nil fs h zero values e = absurd (cc)
Fits-none_nil fs h (suc i) values e = h i values e

Fits-none_cons :
    (fs : List (Option (List String))) (t : String) (ts : List String)
    → Fits fs ts
    → Fits (none ∷ fs) (t ∷ ts)
Fits-none_cons fs t ts h zero values e = absurd (cc)
Fits-none_cons fs t ts h (suc i) values e = h i values e

Fits-some_cons :
    (vs : List String) (fs : List (Option (List String))) (t : String) (ts : List String)
    → any (λ f. eq_ignore_ascii_case f t) vs ≡ true
    → Fits fs ts
    → Fits (some vs ∷ fs) (t ∷ ts)
Fits-some_cons vs fs t ts here h zero values e =
    let same : vs ≡ values = cc in
    (t, refl, subst (λ ws. any (λ f. eq_ignore_ascii_case f t) ws ≡ true) same here)
Fits-some_cons vs fs t ts here h (suc i) values e = h i values e

module _ (to_lowercase : String → String) where
  -- The topics of a filter accept those of a log exactly if they fit at every position.
  pub topics_match_iff :
      (fs : List (Option (List String))) (ts : List String)
      → (topics_match to_lowercase fs ts ≡ true) ↔ Fits fs ts
  unfolding topics_match
  topics_match_iff [] ts = (λ _ i values e. absurd (cc), λ _. refl)
  topics_match_iff (none ∷ fs) [] =
      let (to, from) = topics_match_iff fs [] in
      (λ h. Fits-none_nil fs (to h), λ h. from (λ i. h (suc i)))
  topics_match_iff (none ∷ fs) (t ∷ ts) =
      let (to, from) = topics_match_iff fs ts in
      (λ h. Fits-none_cons fs t ts (to h), λ h. from (λ i. h (suc i)))
  topics_match_iff (some values ∷ fs) [] =
      (λ h. absurd (cc), λ h. let (t, e, _) = h 0 values refl in absurd (cc))
  topics_match_iff (some values ∷ fs) (t ∷ ts) =
      let (to, from) = topics_match_iff fs ts in
      (
        λ h. Fits-some_cons values fs t ts (ground (arith, h)) (to (ground (arith, h))),
        λ h.
            let (u, e, m) = h 0 values refl in
            let same : u ≡ t = cc in
            let first : any (λ f. eq_ignore_ascii_case f t) values ≡ true =
              subst (λ w. any (λ f. eq_ignore_ascii_case f w) values ≡ true) same m in
            ground (arith, first, from (λ i. h (suc i))),
      )

module _ (to_lowercase : String → String) (live : ℕ → Bool) where
  -- A subscription is sent the logs that its filter accepts, all of them and in order, and nothing
  -- once its client is gone.
  pub send_logs-keep :
      (sub : ClientSubscription) (ls : List Value)
      → send_logs to_lowercase live sub ls ≡ (
          if live sub.tx
          then map
              (λ log. (sub.tx, notification sub.subscription_id log))
              (keep (wants to_lowercase live sub) ls)
          else [])
  unfolding send_logs
  send_logs-keep sub [] = ground arith
  send_logs-keep sub (log ∷ ls) =
      let rest = send_logs-keep sub ls in
      elim (Bool-cases (wants to_lowercase live sub log)) [
        | inl e ↦ elim (Bool-cases (live sub.tx)) [
          | inl f ↦ rw e (rw f (rw rest (rw f)))
          | inr f ↦ rw e (rw f)
        ]
        | inr e ↦ rw e rest
      ]

-- A new subscription is found under its id, and removing it leaves the others as they were.
pub unsubscribe-subscribe :
    (id : String) (sub_type : SubscriptionType) (filter : Option LogFilter) (tx : ℕ)
    (subs : List (String × ClientSubscription))
    → ((unsubscribe id (subscribe id sub_type filter tx subs)).1 ≡ true)
      × ((j : String)
          → lookup j (unsubscribe id (subscribe id sub_type filter tx subs)).0
            ≡ (if str_eq id j then none else lookup j subs))
unfolding unsubscribe subscribe
unsubscribe-subscribe id sub_type filter tx subs = (
  ground (arith, lookup-insert id id sub subs, eq_refl id),
  λ j. ground (arith, lookup-remove id j (insert id sub subs), lookup-insert id j sub subs),
)
  where
    sub : ClientSubscription
    sub = record { subscription_id = id; sub_type = sub_type; log_filter = filter; tx = tx }

keep-All :
    (live : ℕ → Bool) (subs : List (String × ClientSubscription))
    → All (λ p. live p.1.tx ≡ true) subs
    → keep (λ p. live p.1.tx) subs ≡ subs
keep-All live [] all = refl
keep-All live (p ∷ subs) (here, all) = rw here (ap (λ t. p ∷ t) (keep-All live subs all))

-- While the client's channel is open, nothing is removed and the count of removed subscriptions is zero.
pub remove_client_subscriptions-live :
    (live : ℕ → Bool) (subs : List (String × ClientSubscription))
    → All (λ p. live p.1.tx ≡ true) subs
    → remove_client_subscriptions live subs ≡ (subs, 0)
unfolding remove_client_subscriptions
remove_client_subscriptions-live live subs all = rw (keep-All live subs all) (ground arith)
