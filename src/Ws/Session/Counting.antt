-- ===== src/Ws/Session/Counting.antt =====
-- Each step of a connection keeps the chain's count of subscriptions.
use Prim.Native.String
use poolbeg.Prelude.{
  ℕ, suc, ◌+◌, ◌-◌, ◌%◌, ◌≤◌, ◌<◌, ◌≡◌, refl, sym, ap, ◌∙◌, Bool, true, false, List, [], ◌∷◌,
  Option, none, some, String, str_eq, is_some, if◌then◌else◌, ltb, and_then, length, All, u64_mod,
  lookup, insert, remove, lookup-insert, lookup-remove, Option-cases, Bool-cases, inl, inr, arith,
}
use poolbeg.Prelude.Maps.Sizes.{
  IsUnique, length-insert, insert-IsUnique, remove-IsUnique, length-remove, remove-none, insert-All,
  remove-All,
}
use poolbeg.Value.{Value, as_array, as_str, get}
use poolbeg.Rpc.Types.{is_method_blocked}
use poolbeg.Rpc.Codec.{Codec}
use poolbeg.Rpc.Handler.{World, Setup}
use poolbeg.Cache.Redis.{Redis}
use poolbeg.Ws.Subscription.{ClientSubscription, subscribe, unsubscribe}
use poolbeg.Ws.Handler.{
  Connection, subscription_kind, eth_subscribe, eth_unsubscribe, call, handle_single_ws_request,
  handle_items, handle_ws_message,
}
use poolbeg.Ws.Session.{
  ClientFrame, client_text, client_close, client_ping, client_other, client_error, serve_frames,
}

abbrev pub sub_id : (ℕ → String) → ℕ → String
sub_id uuid n = String.◌++◌ "0x" (uuid n)

still_none {ℓ} : {A : Type ℓ} {o : Option A} (b : Bool) → o ≡ none → (if b then none else o) ≡ none
still_none true e = refl
still_none false e = e

never_this {ℓ} :
    {A : Type ℓ} (a : A) {o : Option A} {b : Bool}
    → b ≡ false
    → o ≡ none
    → (if b then some a else o) ≡ none
never_this a f e = rw f e

module _ (uuid : ℕ → String) (tx n0 : ℕ)
    (apart : (i j : ℕ) → str_eq (sub_id uuid i) (sub_id uuid j) ≡ true → i ≡ j) where
  -- Each subscription is the client's, has an id of its own that was issued before, and is counted.
  abbrev pub IsCounted : {C : Type 0} → Connection C → Type 0
  IsCounted c =
      IsUnique c.subscriptions
      × ((k : ℕ) → c.issued ≤ k → lookup (sub_id uuid k) c.subscriptions ≡ none)
      × All (λ p. p.1.tx ≡ tx) c.subscriptions
      × (c.ws_subscriptions ≡ (n0 + length c.subscriptions) % u64_mod)

  other_id : (i j : ℕ) → i < j → str_eq (sub_id uuid i) (sub_id uuid j) ≡ false
  other_id i j h = elim (Bool-cases (str_eq (sub_id uuid i) (sub_id uuid j))) [
    | inl same ↦ absurd (omega (arith, h, apart i j same))
    | inr other ↦ other
  ]

  one_more : (c l : ℕ) → c ≡ (n0 + l) % u64_mod → (c + 1) % u64_mod ≡ (n0 + suc l) % u64_mod
  one_more c l e = omega (arith, e)

  one_less :
      (c l : ℕ) → c ≡ (n0 + suc l) % u64_mod → (c + (u64_mod - 1)) % u64_mod ≡ (n0 + l) % u64_mod
  one_less c l e = omega (arith, e)

  removed-IsCounted :
      {C : Type 0} (k : String) (v : ClientSubscription) (c : Connection C)
      → lookup k c.subscriptions ≡ some v
      → IsCounted c
      → IsCounted (record c {
        subscriptions = remove k c.subscriptions;
        ws_subscriptions = (c.ws_subscriptions + (u64_mod - 1)) % u64_mod;
      })
  removed-IsCounted k v c there (unique, fresh, mine, counted) = (
    remove-IsUnique k c.subscriptions unique,
    (λ i le.
        lookup-remove k (sub_id uuid i) c.subscriptions
        ∙ still_none (str_eq k (sub_id uuid i)) (fresh i le)),
    remove-All (λ s. s.tx ≡ tx) k c.subscriptions mine,
    one_less c.ws_subscriptions (length (remove k c.subscriptions)) (
        counted
        ∙ ap (λ l. (n0 + l) % u64_mod) (sym (length-remove k v c.subscriptions unique there))),
  )

  added-IsCounted :
      {C : Type 0} (v : ClientSubscription) (c : Connection C)
      → v.tx ≡ tx
      → IsCounted c
      → IsCounted (record c {
        subscriptions = insert (sub_id uuid c.issued) v c.subscriptions;
        ws_subscriptions = (c.ws_subscriptions + 1) % u64_mod;
        issued = suc c.issued;
      })
  added-IsCounted v c own (unique, fresh, mine, counted) =
      let absent = fresh c.issued (omega arith) in
      (
        insert-IsUnique (sub_id uuid c.issued) v c.subscriptions absent unique,
        (λ i le.
            lookup-insert (sub_id uuid c.issued) (sub_id uuid i) v c.subscriptions
            ∙ never_this v (other_id c.issued i le) (fresh i (omega (arith, le)))),
        insert-All (λ s. s.tx ≡ tx) (sub_id uuid c.issued) v c.subscriptions own mine,
        one_more c.ws_subscriptions (length c.subscriptions) counted
            ∙ ap (λ l. (n0 + l) % u64_mod)
                (sym (length-insert (sub_id uuid c.issued) v c.subscriptions absent)),
      )

  unsubscribed-IsCounted :
      {C : Type 0} (k : String) (c : Connection C)
      → IsCounted c
      → IsCounted (
          if is_some (lookup k c.subscriptions)
          then record c {
            subscriptions = remove k c.subscriptions;
            ws_subscriptions = (c.ws_subscriptions + (u64_mod - 1)) % u64_mod;
          }
          else record c { subscriptions = remove k c.subscriptions })
  unsubscribed-IsCounted k c h = elim (Option-cases (lookup k c.subscriptions)) [
    | inr (v, there) ↦ rw there (removed-IsCounted k v c there h)
    | inl absent ↦ rw absent (rw (remove-none k c.subscriptions absent) h)
  ]

  module _ (r : Redis) (codec : Codec) (world : World) (setup : Setup)
      (to_lowercase : String → String) where
    eth_subscribe-IsCounted :
        (params id : Value) (c : Connection r.State)
        → IsCounted c
        → IsCounted (eth_subscribe r codec world setup to_lowercase uuid tx params id c).0
    unfolding eth_subscribe subscribe
    eth_subscribe-IsCounted params id c h =
        elim (Option-cases (subscription_kind to_lowercase params)) [
          | inl e ↦ rw (e, eth_subscribe) h
          | inr ((kind, filter), e) ↦
              rw (e, eth_subscribe)
                (added-IsCounted
                  (record {
                    subscription_id = sub_id uuid c.issued;
                    sub_type = kind;
                    log_filter = filter;
                    tx = tx;
                  })
                  c refl h)
        ]

    eth_unsubscribe-IsCounted :
        (params id : Value) (c : Connection r.State)
        → IsCounted c
        → IsCounted (eth_unsubscribe r codec world setup to_lowercase uuid tx params id c).0
    unfolding eth_unsubscribe unsubscribe
    eth_unsubscribe-IsCounted params id c h = unsubscribed-IsCounted _ c h

    handle_single_ws_request-IsCounted :
        (parsed : Value) (c : Connection r.State)
        → IsCounted c
        → IsCounted (handle_single_ws_request r codec world setup to_lowercase uuid tx parsed c).0
    unfolding handle_single_ws_request call
    handle_single_ws_request-IsCounted parsed c h =
        elim (Option-cases (and_then (get parsed "method") as_str)) [
          | inl e ↦ rw (e, handle_single_ws_request) h
          | inr (method, e) ↦
              elim (Bool-cases (is_method_blocked method setup.server.blocked_methods)) [
                | inl b ↦ rw (e, handle_single_ws_request) (rw b h)
                | inr b ↦ elim (Bool-cases (str_eq method "eth_subscribe")) [
                  | inl s ↦
                      rw (e, handle_single_ws_request)
                        (rw b (rw s (eth_subscribe-IsCounted _ _ c h)))
                  | inr s ↦ elim (Bool-cases (str_eq method "eth_unsubscribe")) [
                    | inl u ↦
                        rw (e, handle_single_ws_request)
                          (rw b (rw s (rw u (eth_unsubscribe-IsCounted _ _ c h))))
                    | inr u ↦ rw (e, handle_single_ws_request) (rw b (rw s (rw u h)))
                  ]
                ]
              ]
        ]

    handle_items-IsCounted :
        (items : List Value) (c : Connection r.State)
        → IsCounted c
        → IsCounted (handle_items r codec world setup to_lowercase uuid tx items c).0
    unfolding handle_items
    handle_items-IsCounted [] c h = h
    handle_items-IsCounted (item ∷ items) c h =
        let q = handle_single_ws_request r codec world setup to_lowercase uuid tx item c in
        let kept = handle_single_ws_request-IsCounted item c h in
        elim (Option-cases q.1) [
          | inl e ↦ rw (e, handle_items) kept
          | inr (resp, e) ↦ rw (e, handle_items) (handle_items-IsCounted items q.0 kept)
        ]

    handle_ws_message-IsCounted :
        (msg : String) (c : Connection r.State)
        → IsCounted c
        → IsCounted (handle_ws_message r codec world setup to_lowercase uuid tx msg c).0
    unfolding handle_ws_message
    handle_ws_message-IsCounted msg c h = elim (Option-cases (codec.decode_value msg)) [
      | inl e ↦ rw (e, handle_ws_message) h
      | inr (parsed, e) ↦ elim (Option-cases (as_array parsed)) [
        | inl one ↦
            rw (e, handle_ws_message) (rw one (handle_single_ws_request-IsCounted parsed c h))
        | inr (arr, many) ↦ elim (Bool-cases (ltb setup.server.max_batch_size (length arr))) [
          | inl large ↦ rw (e, handle_ws_message) (rw many (rw large h))
          | inr fits ↦
              rw (e, handle_ws_message) (rw many (rw fits (handle_items-IsCounted arr c h)))
        ]
      ]
    ]

    pub serve_frames-IsCounted :
        (fs : List ClientFrame) (c : Connection r.State)
        → IsCounted c
        → IsCounted (serve_frames r codec world setup to_lowercase uuid tx fs c).0
    unfolding serve_frames
    serve_frames-IsCounted [] c h = h
    serve_frames-IsCounted (client_text msg ∷ fs) c h =
        let q = handle_ws_message r codec world setup to_lowercase uuid tx msg c in
        let kept = handle_ws_message-IsCounted msg c h in
        elim (Option-cases q.1) [
          | inl e ↦ rw (e, serve_frames) kept
          | inr (resp, e) ↦ rw (e, serve_frames) (serve_frames-IsCounted fs q.0 kept)
        ]
    serve_frames-IsCounted (client_close ∷ fs) c h = h
    serve_frames-IsCounted (client_error ∷ fs) c h = h
    serve_frames-IsCounted (client_ping ∷ fs) c h = serve_frames-IsCounted fs c h
    serve_frames-IsCounted (client_other ∷ fs) c h = serve_frames-IsCounted fs c h

    pub fresh-IsCounted :
        (c : Connection r.State)
        → c.subscriptions ≡ []
        → c.ws_subscriptions ≡ n0
        → n0 < u64_mod
        → IsCounted c
    unfolding lookup
    fresh-IsCounted c none_yet e small =
        rw none_yet (tt, (λ k le. refl), tt, omega (arith, e, small))
