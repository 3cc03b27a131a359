-- ===== src/Upstream/Subscriber/Forwarded.antt =====
-- What the subscriber forwards, and how long it waits.
use poolbeg.Prelude.{
  ℕ, ◌≤◌, ◌≡◌, refl, ◌||◌, List, [], ◌∷◌, String, str_eq, leb, ◌==◌, Option-cases, Bool-cases, inl,
  inr, All, arith,
}
use poolbeg.Rpc.Codec.{Codec}
use poolbeg.Upstream.Tracker.Heads.{heights, Ascending}
use poolbeg.Upstream.Subscriber.{
  Frame, text, ping, close, other, failed, min_backoff, max_backoff, Round, no_upstream,
  disconnected, broken, pause, sleeps, header_in, header_height, header_hash, forward_notifications,
}

-- The last announced height, or `n` if there is none.
abbrev pub final : ℕ → List ℕ → ℕ
final n [] = n
final n (h ∷ hs) = final h hs

module _ (codec : Codec) (chain_id : ℕ) (sub_id : String) where
  -- On any sequence of frames, each forwarded head is above the heads before it on the connection,
  -- and the number that the manager reads at the end is that of the last one.
  pub forward_notifications-Ascending :
      (fs : List Frame) (last latest : ℕ)
      → Ascending last (heights (forward_notifications codec chain_id sub_id fs last latest).events)
        × ((forward_notifications codec chain_id sub_id fs last latest).latest_block_number
            ≡ final latest
                (heights (forward_notifications codec chain_id sub_id fs last latest).events))
  unfolding forward_notifications heights
  forward_notifications-Ascending [] last latest = (_, refl)
  forward_notifications-Ascending (text t ∷ fs) last latest =
      let same = forward_notifications-Ascending fs last latest in
      elim (Option-cases (header_in codec sub_id t)) [
        | inl e ↦ rw (e, forward_notifications) same
        | inr (header, e) ↦
            let next =
              forward_notifications-Ascending fs (header_height header) (header_height header) in
            elim (Bool-cases (header_height header == 0 || str_eq (header_hash header) "")) [
              | inl f ↦ rw (e, forward_notifications) (rw f same)
              | inr f ↦ elim (Bool-cases (leb (header_height header) last)) [
                | inl g ↦ rw (e, forward_notifications) (rw f (rw g same))
                | inr g ↦
                    rw (e, forward_notifications)
                      (rw f (rw g ((ground (arith, g), next.0), next.1)))
              ]
            ]
      ]
  forward_notifications-Ascending (close ∷ fs) last latest = (_, refl)
  forward_notifications-Ascending (failed ∷ fs) last latest = (_, refl)
  forward_notifications-Ascending (ping ∷ fs) last latest =
      forward_notifications-Ascending fs last latest
  forward_notifications-Ascending (other ∷ fs) last latest =
      forward_notifications-Ascending fs last latest

-- Whatever the rounds meet, from a backoff of one to sixty seconds on the loop sleeps from one to sixty
-- seconds before each new connection.
pub sleeps-bounds :
    (rounds : List Round) (backoff : ℕ)
    → min_backoff ≤ backoff
    → backoff ≤ max_backoff
    → All (λ d. (min_backoff ≤ d) × (d ≤ max_backoff)) (sleeps rounds backoff)
unfolding sleeps pause
sleeps-bounds [] backoff low high = _
sleeps-bounds (no_upstream ∷ rounds) backoff low high = (
  (low, high),
  sleeps-bounds rounds (pause no_upstream backoff).1 (omega (arith, low, high))
      (omega (arith, low, high)),
)
sleeps-bounds (disconnected ∷ rounds) backoff low high = (
  (omega arith, omega arith),
  sleeps-bounds rounds (pause disconnected backoff).1 (omega arith) (omega arith),
)
sleeps-bounds (broken ∷ rounds) backoff low high = (
  (low, high),
  sleeps-bounds rounds (pause broken backoff).1 (omega (arith, low, high))
      (omega (arith, low, high)),
)
