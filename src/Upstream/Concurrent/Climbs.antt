-- ===== src/Upstream/Concurrent/Climbs.antt =====
-- What one action does to the heads, while the tasks agree.
use poolbeg.Prelude.{
  ℕ, ◌<◌, ◌≤◌, ◌≡◌, refl, ◌⊎◌, inl, inr, ◌||◌, List, [], ◌∷◌, Option, none, some, String, str_eq,
  leb, ◌==◌, Option-cases, Bool-cases, arith,
}
use poolbeg.Value.{Value}
use poolbeg.Rpc.Codec.{Codec}
use poolbeg.Cache.Redis.{Redis}
use poolbeg.Cache.Layer
use poolbeg.Upstream.Tracker.{BlockEvent, Tracking, block_height, block_hash}
use poolbeg.Upstream.Tracker.Heads.{heights, unusable, same, lagging, replaced, higher}
use poolbeg.Upstream.Subscriber.{text, header_in, header_height, header_hash}
use poolbeg.Upstream.Concurrent.{
  State, Poller, idle, cached, telling, fetching, logged, Listener, away, listening, stored, look,
  track, take_logs, hear,
}
use poolbeg.Upstream.Concurrent.Settled.{Settled, floor, floor_of, IsSettled}

-- An action sends no head and does not lower the floor, or sends one head between the floor and the next.
abbrev pub Climbs : {C : Type 0} → ℕ → State C × List BlockEvent → Type 0
Climbs n (s, es) =
    IsSettled s
    × (((heights es ≡ []) × (n ≤ floor_of s))
        ⊎ ((h : ℕ) × (heights es ≡ h ∷ []) × (n < h) × (h ≤ floor_of s)))

module _ (r : Redis) (codec : Codec) (chain_id : ℕ) where
  pub stays : (s : State r.State) → IsSettled s → Climbs (floor_of s) (s, [])
  unfolding heights
  stays s ok = (ok, inl (refl, omega arith))

  cached-Climbs :
      (s : Tracking r.State) (cache : r.State) (l : Listener) (h : ℕ) (k : String) (b : Value)
      → s.last_block_number < h
      → Settled s.ws_connected idle l
      → Climbs (floor s.last_block_number idle l) (
        record { tracking = record s { cache = cache }; poller = cached h k b; listener = l },
        [],
      )
  unfolding heights
  cached-Climbs s cache away h k b up (down, raised) =
      ((down, omega arith), inl (refl, omega arith))
  cached-Climbs s cache (listening j n) h k b up ok = (ok, inl (refl, omega arith))
  cached-Climbs s cache (stored j header) h k b up ok = (ok, inl (refl, omega arith))

  -- The tests of `look` leave the subscriber as it is.
  pub look-Climbs :
      (s : Tracking r.State) (l : Listener) (block : Value)
      → Settled s.ws_connected idle l
      → Climbs
          (floor s.last_block_number idle l)
          (look r codec chain_id (record { tracking = s; poller = idle; listener = l }) block)
  unfolding look heights
  look-Climbs s l block ok = elim (Bool-cases (unusable r codec chain_id s block)) [
    | inl e ↦ rw (e, look) (ok, inl (refl, omega arith))
    | inr e ↦ elim (Bool-cases (same r codec chain_id s block)) [
      | inl f ↦ rw (e, look) (rw f (ok, inl (refl, omega arith)))
      | inr f ↦ elim (Bool-cases (lagging r codec chain_id s block)) [
        | inl g ↦ rw (e, look) (rw f (rw g (ok, inl (refl, omega arith))))
        | inr g ↦ elim (Bool-cases (replaced r codec chain_id s block)) [
          | inl h ↦ rw (e, look) (rw f (rw g (rw h (ok, inl (refl, omega arith)))))
          | inr h ↦
              let up = higher r codec chain_id s block e f g h in
              let height = block_height block in
              let hash = block_hash block in
              rw (e, look)
                (rw f (
                  rw g (
                    rw h (
                      cached-Climbs s (Layer.cache_block r codec s.cache chain_id height hash block)
                        l height hash block up ok))))
        ]
      ]
    ]
  ]

  -- `go_on` in each place.
  pub track-Climbs :
      (s : Tracking r.State) (p : Poller) (l : Listener)
      → Settled s.ws_connected p l
      → Climbs
          (floor s.last_block_number p l)
          (track r codec chain_id (record { tracking = s; poller = p; listener = l }) p)
  unfolding track heights
  track-Climbs s idle l ok = stays (record { tracking = s; poller = idle; listener = l }) ok
  track-Climbs s (fetching h k) l ok =
      stays (record { tracking = s; poller = fetching h k; listener = l }) ok
  track-Climbs s (cached h k b) away (down, raised) =
      rw down ((refl, raised), inl (refl, omega arith))
  track-Climbs s (cached h k b) (listening j n) (up, quiet) =
      rw up ((refl, tt), inl (refl, omega arith))
  track-Climbs s (cached h k b) (stored j header) (up, quiet, raised) =
      rw up ((refl, tt, raised), inl (refl, omega arith))
  track-Climbs s (telling h k b) away (down, raised) =
      ((down, tt), inr (h, refl, omega arith, omega arith))
  track-Climbs s (telling h k b) (listening j n) (up, quiet) = elim quiet [ ]
  track-Climbs s (telling h k b) (stored j header) (up, quiet, raised) = elim quiet [ ]
  track-Climbs s (logged h k) away ok = (ok, inl (refl, omega arith))
  track-Climbs s (logged h k) (listening j n) ok = (ok, inl (refl, omega arith))
  track-Climbs s (logged h k) (stored j header) ok = (ok, inl (refl, omega arith))

  pub take_logs-Climbs :
      (s : Tracking r.State) (h : ℕ) (k : String) (l : Listener) (logs : Option Value)
      → Settled s.ws_connected (fetching h k) l
      → Climbs (floor s.last_block_number (fetching h k) l) (
          take_logs r codec chain_id
            (record { tracking = s; poller = fetching h k; listener = l })
            h
            k
            logs)
  unfolding take_logs heights
  take_logs-Climbs s h k away none ok = (ok, inl (refl, omega arith))
  take_logs-Climbs s h k (listening j n) none ok = (ok, inl (refl, omega arith))
  take_logs-Climbs s h k (stored j header) none ok = (ok, inl (refl, omega arith))
  take_logs-Climbs s h k away (some logs) ok = (ok, inl (refl, omega arith))
  take_logs-Climbs s h k (listening j n) (some logs) ok = (ok, inl (refl, omega arith))
  take_logs-Climbs s h k (stored j header) (some logs) ok = (ok, inl (refl, omega arith))

  pub hear-Climbs :
      (s : Tracking r.State) (p : Poller) (j : String) (n : ℕ) (t : String)
      → Settled s.ws_connected p (listening j n)
      → Climbs n (
        hear r codec chain_id
            (record { tracking = s; poller = p; listener = listening j n })
            j
            n
            (text t),
        [],
      )
  unfolding hear heights
  hear-Climbs s p j n t ok = elim (Option-cases (header_in codec j t)) [
    | inl e ↦ rw (e, hear) (ok, inl (refl, omega arith))
    | inr (header, e) ↦
        elim (Bool-cases (header_height header == 0 || str_eq (header_hash header) "")) [
          | inl f ↦ rw (e, hear) (rw f (ok, inl (refl, omega arith)))
          | inr f ↦ elim (Bool-cases (leb (header_height header) n)) [
            | inl g ↦ rw (e, hear) (rw f (rw g (ok, inl (refl, omega arith))))
            | inr g ↦
                rw (e, hear)
                  (rw f (rw g ((ok.0, ok.1, ground (arith, f)), inl (refl, ground (arith, g)))))
          ]
        ]
  ]
