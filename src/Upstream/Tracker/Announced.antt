-- ===== src/Upstream/Tracker/Announced.antt =====
-- The heads announced over the whole run of the tracker.
use poolbeg.Prelude.{ℕ, refl, inl, inr, List, [], ◌∷◌, get_elem?, Option-cases, Bool-cases, arith}
use poolbeg.Config.{UpstreamStrategy}
use poolbeg.Rpc.Codec.{Codec}
use poolbeg.Cache.Redis.{Redis}
use poolbeg.Upstream.Client.{try_acquire_rate_limit}
use poolbeg.Upstream.Tracker.{Poll, select_best_upstream, Tracker, poll, run}
use poolbeg.Upstream.Tracker.Heads.{
  heights, heights-append, Ascending, Ascending-weaken, Moves, fetch_latest_block-Moves,
}

module _ (r : Redis) (codec : Codec) (chain_id : ℕ) (strategy : UpstreamStrategy) where
  pub poll-Moves :
      (x : Poll) (t : Tracker r.State)
      → Moves r codec chain_id t.tracking
          (poll r codec chain_id strategy x t).0.tracking
          (poll r codec chain_id strategy x t).1
  unfolding poll heights
  poll-Moves x t =
      elim (Option-cases (select_best_upstream x.gen_range strategy t.upstreams t.counter).0) [
        | inl e ↦ rw (e, poll) (inl (refl, omega arith))
        | inr (i, e) ↦ elim (Option-cases (get_elem? t.upstreams i)) [
          | inl g ↦ rw (e, poll) (rw g (inl (refl, omega arith)))
          | inr (u, g) ↦ elim (Bool-cases (try_acquire_rate_limit u x.acquired).1) [
            | inl ok ↦
                rw (e, poll)
                  (rw g (
                    rw ok (
                      fetch_latest_block-Moves r codec chain_id
                        (try_acquire_rate_limit u x.acquired).0 x.answered (x.block_reply i)
                        (x.logs_reply i) t.tracking)))
            | inr spent ↦ rw (e, poll) (rw g (rw spent (inl (refl, omega arith))))
          ]
        ]
      ]

  -- However the upstreams answer, over the whole run of the tracker each announced head is above all
  -- heads before it.
  pub run-Ascending :
      (xs : List Poll) (t : Tracker r.State)
      → Ascending t.tracking.last_block_number (heights (run r codec chain_id strategy xs t).1)
  unfolding run heights
  run-Ascending [] t = _
  run-Ascending (x ∷ xs) t =
      let t1 = (poll r codec chain_id strategy x t).0 in
      let es = (poll r codec chain_id strategy x t).1 in
      let later = (run r codec chain_id strategy xs t1).1 in
      let rest : Ascending t1.tracking.last_block_number (heights later) = run-Ascending xs t1 in
      rw (heights-append es later) (elim (poll-Moves x t) [
        | inl (quiet, up) ↦ rw quiet (
            Ascending-weaken t.tracking.last_block_number t1.tracking.last_block_number
              (heights later) up rest)
        | inr (one, up) ↦ rw one (up, rest)
      ])
