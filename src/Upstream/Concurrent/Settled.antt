-- ===== src/Upstream/Concurrent/Settled.antt =====
-- When the two tasks agree on which of them announces the heads.
use poolbeg.Prelude.{ℕ, ◌-◌, ◌<◌, ◌≡◌, Bool, true, false}
use poolbeg.Upstream.Subscriber.{text, ping, close, other, failed, header_height}
use poolbeg.Upstream.Concurrent.{
  State, Poller, idle, cached, telling, fetching, logged, Listener, away, listening, stored, Action,
  polled, go_on, answered, subscribed, framed, announced, ended,
}

-- The action neither begins nor ends a subscription.
unfoldable pub is_steady : Action → Bool
is_steady (subscribed sub_id) = false
is_steady ended = false
is_steady (framed close) = false
is_steady (framed failed) = false
is_steady (framed (text t)) = true
is_steady (framed ping) = true
is_steady (framed other) = true
is_steady (polled block) = true
is_steady go_on = true
is_steady (answered logs) = true
is_steady announced = true

-- The tracker is not about to send a head.
abbrev pub Quiet : Poller → Type 0
Quiet (telling h k b) = ⊥
Quiet idle = Unit
Quiet (cached h k b) = Unit
Quiet (fetching h k) = Unit
Quiet (logged h k) = Unit

-- A head that the tracker is about to send has a height above zero.
abbrev pub Raised : Poller → Type 0
Raised idle = Unit
Raised (cached h k b) = 0 < h
Raised (telling h k b) = 0 < h
Raised (fetching h k) = Unit
Raised (logged h k) = Unit

-- The shared flag agrees with where the subscriber stands, and the task that is to keep quiet does.
abbrev pub Settled : Bool → Poller → Listener → Type 0
Settled connected p away = (connected ≡ false) × Raised p
Settled connected p (listening k last) = (connected ≡ true) × Quiet p
Settled connected p (stored k header) = (connected ≡ true) × Quiet p × (0 < header_height header)

-- What the next head that the tracker sends is above, after the last number `last`.
abbrev pub tracked : ℕ → Poller → ℕ
tracked last idle = last
tracked last (cached h k b) = h - 1
tracked last (telling h k b) = h - 1
tracked last (fetching h k) = h
tracked last (logged h k) = h

-- What the next head is above.
abbrev pub floor : ℕ → Poller → Listener → ℕ
floor last p away = tracked last p
floor last p (listening k n) = n
floor last p (stored k header) = header_height header - 1

abbrev pub floor_of : {C : Type 0} → State C → ℕ
floor_of s = floor s.tracking.last_block_number s.poller s.listener

abbrev pub IsSettled : {C : Type 0} → State C → Type 0
IsSettled s = Settled s.tracking.ws_connected s.poller s.listener
