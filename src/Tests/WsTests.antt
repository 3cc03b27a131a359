-- ===== src/Tests/WsTests.antt =====
-- The subscriptions of a sample client.
use poolbeg.Prelude.{
  ℕ, zero, suc, false, ◌+◌, sym, ap, ◌∙◌, eq_iff, str_ne_nil, insert, ◌%◌, u64_mod, ◌≡◌, ◌↔◌, refl,
  ◌||◌, if◌then◌else◌, [], ◌∷◌, none, some, String, str_eq, true, length, arith,
}
use poolbeg.Value.{null, array_of, Value, string, object, field, end}
use poolbeg.Rpc.Codec.{Codec}
use poolbeg.Tests.Memory.{Store, memory}
use poolbeg.Tests.Samples.{codec, world, setup, service}
use poolbeg.Ws.Handler.{
  Connection, handle_ws_message, handle_single_ws_request, eth_subscribe, subscription_kind,
}
use poolbeg.Rpc.Types.{is_method_blocked}
use Prim.Native.String
use text.Mathlib.TextLemmas.{cons-append, nil-append, cons-eq-cons}
use poolbeg.Ws.Session.{client_text, client_close, serve_frames, handle_ws_connection}
use poolbeg.Ws.Session.Leaked.{handle_ws_connection-count}
use poolbeg.Ws.Connections
use poolbeg.Ws.Connections.{State, Reach, accept, begin, here, next}
use poolbeg.Ws.Connections.Counted.{Reach-unlimited}
use poolbeg.Ws.Subscription.{ClientSubscription, logs, topics_match, subscribe}
use poolbeg.Ws.Subscription.Dispatch.{Fits, topics_match_iff}

abbrev sub : ClientSubscription
sub = record {
  subscription_id = "0x1";
  sub_type = logs;
  log_filter = some (record { address = some ("0xaa" ∷ []); topics = none });
  tx = 3;
}

abbrev log : String → Value
log address = object (field "address" (string address) end)

topics_match_iff_example :
    (topics_match (λ s. s) (none ∷ some ("0xA" ∷ []) ∷ []) ("0x1" ∷ "0xa" ∷ []) ≡ true)
    ↔ Fits (none ∷ some ("0xA" ∷ []) ∷ []) ("0x1" ∷ "0xa" ∷ [])
topics_match_iff_example =
    topics_match_iff (λ s. s) (none ∷ some ("0xA" ∷ []) ∷ []) ("0x1" ∷ "0xa" ∷ [])

abbrev reader : Codec
reader = record codec { decode_value = λ t. some (array_of (null ∷ object end ∷ [])) }

abbrev connection : Connection Store
connection = record {
  service = service;
  subscriptions = ("0x1", sub) ∷ [];
  ws_subscriptions = 5;
  issued = 0;
}

Reach-unlimited_example : (s : State) × Reach 10 Connections.start s × (s.opened ≡ 11)
Reach-unlimited_example = Reach-unlimited 10 (omega arith) 11

-- Identifiers that differ: so many strokes.
strokes : ℕ → String
strokes zero = ""
strokes (suc n) = String.◌∷◌ "1" (strokes n)

strokes_inj : (i j : ℕ) → strokes i ≡ strokes j → i ≡ j
unfolding strokes
strokes_inj zero zero e = refl
strokes_inj zero (suc j) e =
    let wrong : false ≡ true = sym (str_ne_nil "1" (strokes j)) ∙ ap (λ s. str_eq s "") (sym e) in
    absurd (cc)
strokes_inj (suc i) zero e =
    let wrong : false ≡ true = sym (str_ne_nil "1" (strokes i)) ∙ ap (λ s. str_eq s "") e in
    absurd (cc)
strokes_inj (suc i) (suc j) e = ap suc (strokes_inj i j (cons-eq-cons.0 e).1)

prefixed : (s : String) → String.◌++◌ "0x" s ≡ String.◌∷◌ "0" (String.◌∷◌ "x" s)
prefixed s =
    cons-append "0" "x" s
    ∙ ap (String.◌∷◌ "0") (cons-append "x" "" s ∙ ap (String.◌∷◌ "x") (nil-append s))

strokes_apart :
    (i j : ℕ) → str_eq (String.◌++◌ "0x" (strokes i)) (String.◌++◌ "0x" (strokes j)) ≡ true → i ≡ j
strokes_apart i j e =
    let same = sym (prefixed (strokes i)) ∙ ((eq_iff _ _).0 e ∙ prefixed (strokes j)) in
    strokes_inj i j (cons-eq-cons.0 (cons-eq-cons.0 same).1).1

abbrev subscriber : Codec
subscriber = record codec {
  decode_value = λ t. some (
      object (
        field "method" (string "eth_subscribe")
          (field "params" (array_of (string "newHeads" ∷ [])) end)));
}

abbrev first : Connection Store
first = record connection { subscriptions = [] }

-- The connection after its frames.
abbrev served : Connection Store
served =
    (serve_frames memory subscriber world setup (λ s. s) strokes 3
      (client_text "a" ∷ client_close ∷ []) first).0

one_left : length served.subscriptions ≡ 1
unfolding serve_frames handle_ws_message handle_single_ws_request is_method_blocked eth_subscribe
    subscription_kind subscribe insert
one_left = refl

handle_ws_connection-count_example :
    (handle_ws_connection memory subscriber world setup
      (λ s. s)
      strokes
      3
      (λ n. true)
      (client_text "a" ∷ client_close ∷ [])
      first).ws_subscriptions
    ≡ (if (serve_frames memory subscriber world setup
            (λ s. s)
            strokes
            3
            (client_text "a" ∷ client_close ∷ [])
            first).2
          || true
        then (5 + length served.subscriptions) % u64_mod
        else 5)
handle_ws_connection-count_example =
    handle_ws_connection-count strokes 3 5 strokes_apart memory subscriber world setup (λ s. s)
      (λ n. true) (client_text "a" ∷ client_close ∷ []) first refl refl (omega arith)
      (omega (arith, one_left))
