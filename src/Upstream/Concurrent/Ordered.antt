-- ===== src/Upstream/Concurrent/Ordered.antt =====
-- The order of the heads that the two tasks send on one channel.
use poolbeg.Prelude.{ℕ, ◌≡◌, refl, inl, inr, true, List, [], ◌∷◌, All, arith}
use poolbeg.Rpc.Codec.{Codec}
use poolbeg.Cache.Redis.{Redis}
use poolbeg.Upstream.Tracker.{Tracking}
use poolbeg.Upstream.Tracker.Heads.{heights, heights-append, Ascending, Ascending-weaken}
use poolbeg.Upstream.Subscriber.{text, ping, close, other, failed, header_height}
use poolbeg.Upstream.Concurrent.{
  State, Poller, idle, cached, telling, fetching, logged, Listener, away, listening, stored, Action,
  polled, go_on, answered, subscribed, framed, announced, ended, hear, act, run,
}
use poolbeg.Upstream.Concurrent.Settled.{is_steady, Settled, floor, floor_of, IsSettled}
use poolbeg.Upstream.Concurrent.Climbs.{
  Climbs, stays, look-Climbs, track-Climbs, take_logs-Climbs, hear-Climbs,
}

module _ (r : Redis) (codec : Codec) (chain_id : ℕ) where
  act-Climbs :
      (s : Tracking r.State) (p : Poller) (l : Listener) (a : Action)
      → is_steady a ≡ true
      → Settled s.ws_connected p l
      → Climbs
          (floor s.last_block_number p l)
          (act r codec chain_id (record { tracking = s; poller = p; listener = l }) a)
  unfolding act is_steady hear heights
  act-Climbs s idle l (polled block) steady ok = look-Climbs r codec chain_id s l block ok
  act-Climbs s (cached h k b) l (polled block) steady ok =
      stays r codec chain_id (record { tracking = s; poller = cached h k b; listener = l }) ok
  act-Climbs s (telling h k b) l (polled block) steady ok =
      stays r codec chain_id (record { tracking = s; poller = telling h k b; listener = l }) ok
  act-Climbs s (fetching h k) l (polled block) steady ok =
      stays r codec chain_id (record { tracking = s; poller = fetching h k; listener = l }) ok
  act-Climbs s (logged h k) l (polled block) steady ok =
      stays r codec chain_id (record { tracking = s; poller = logged h k; listener = l }) ok
  act-Climbs s p l go_on steady ok = track-Climbs r codec chain_id s p l ok
  act-Climbs s idle l (answered logs) steady ok =
      stays r codec chain_id (record { tracking = s; poller = idle; listener = l }) ok
  act-Climbs s (cached h k b) l (answered logs) steady ok =
      stays r codec chain_id (record { tracking = s; poller = cached h k b; listener = l }) ok
  act-Climbs s (telling h k b) l (answered logs) steady ok =
      stays r codec chain_id (record { tracking = s; poller = telling h k b; listener = l }) ok
  act-Climbs s (fetching h k) l (answered logs) steady ok =
      take_logs-Climbs r codec chain_id s h k l logs ok
  act-Climbs s (logged h k) l (answered logs) steady ok =
      stays r codec chain_id (record { tracking = s; poller = logged h k; listener = l }) ok
  act-Climbs s p l (subscribed sub_id) steady ok = cc
  act-Climbs s p l ended steady ok = cc
  act-Climbs s p away (framed f) steady ok =
      stays r codec chain_id (record { tracking = s; poller = p; listener = away }) ok
  act-Climbs s p (stored j header) (framed f) steady ok =
      stays r codec chain_id (record { tracking = s; poller = p; listener = stored j header }) ok
  act-Climbs s p (listening j n) (framed (text t)) steady ok =
      hear-Climbs r codec chain_id s p j n t ok
  act-Climbs s p (listening j n) (framed ping) steady ok =
      stays r codec chain_id (record { tracking = s; poller = p; listener = listening j n }) ok
  act-Climbs s p (listening j n) (framed other) steady ok =
      stays r codec chain_id (record { tracking = s; poller = p; listener = listening j n }) ok
  act-Climbs s p (listening j n) (framed close) steady ok = cc
  act-Climbs s p (listening j n) (framed failed) steady ok = cc
  act-Climbs s p away announced steady ok =
      stays r codec chain_id (record { tracking = s; poller = p; listener = away }) ok
  act-Climbs s p (listening j n) announced steady ok =
      stays r codec chain_id (record { tracking = s; poller = p; listener = listening j n }) ok
  act-Climbs s p (stored j header) announced steady (up, quiet, raised) =
      ((up, quiet), inr (header_height header, refl, omega (arith, raised), omega arith))

  -- In any run of the two tasks in which no subscription begins or ends: if at its start the flag agrees
  -- with the subscriber, and the tracker is not about to send a head beside a subscription, the heads
  -- that the two send ascend, each above the heads before it.
  pub heights-run-Ascending :
      (s : State r.State) (acts : List Action)
      → All (λ a. is_steady a ≡ true) acts
      → IsSettled s
      → Ascending (floor_of s) (heights (run r codec chain_id s acts).1)
  unfolding run heights
  heights-run-Ascending s [] steady ok = _
  heights-run-Ascending s (a ∷ acts) (steady, all_steady) ok =
      let (ok1, moved) = act-Climbs s.tracking s.poller s.listener a steady ok in
      let s1 = (act r codec chain_id s a).0 in
      let es = (act r codec chain_id s a).1 in
      let later = (run r codec chain_id s1 acts).1 in
      let rest : Ascending (floor_of s1) (heights later) =
        heights-run-Ascending s1 acts all_steady ok1 in
      rw (heights-append es later) (elim moved [
        | inl (none_sent, up) ↦
            rw none_sent (Ascending-weaken (floor_of s) (floor_of s1) (heights later) up rest)
        | inr (h, one, up, below) ↦
            rw one (up, Ascending-weaken h (floor_of s1) (heights later) below rest)
      ])
