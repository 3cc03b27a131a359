-- ===== src/Upstream/Tracker/Chains.antt =====
-- What the tracker of one chain does to the cache of the others.
use poolbeg.Prelude.{ℕ, ◌<◌, List, [], ◌∷◌, u64_mod, get_elem?, Option-cases, Bool-cases, inl, inr}
use poolbeg.Value.{Value, is_null}
use poolbeg.Config.{UpstreamStrategy}
use poolbeg.Rpc.Codec.{Codec}
use poolbeg.Cache.Redis.{Redis, Laws, Answers}
use poolbeg.Cache.Layer
use poolbeg.Cache.Layer.Chains.{
  Owned, Isolated, Isolated-refl, Isolated-trans, cache_block-Isolated, cache_logs-Isolated,
  invalidate_head_cache-Isolated,
}
use poolbeg.Upstream.Client.{UpstreamClient, HttpOutcome, send_request, try_acquire_rate_limit}
use poolbeg.Upstream.Tracker.{
  block_height, block_hash, Tracking, Poll, Tracker, fetch_block_logs, accept, see_block,
  fetch_latest_block, select_best_upstream, poll, run,
}
use poolbeg.Upstream.Tracker.Heads.{
  unusable, same, lagging, replaced, see_block-unusable, see_block-same, see_block-lagging,
  see_block-replaced, see_block-accept,
}

module _ (r : Redis) (law : Laws r) (up : Answers r) (codec : Codec) (c : ℕ)
    (small : c < u64_mod) where
  fetch_block_logs-Isolated :
      (u : UpstreamClient) (now : ℕ) (outcome : HttpOutcome) (cache : r.State) (n : ℕ)
      → Owned r c cache
      → Isolated r c cache (fetch_block_logs r codec c u now outcome cache n).1
  unfolding fetch_block_logs
  fetch_block_logs-Isolated u now outcome cache n own =
      elim (Option-cases (send_request u now outcome).1) [
        | inl e ↦ rw (e, fetch_block_logs) (Isolated-refl r c cache own)
        | inr (p, e) ↦ elim (Option-cases p.result) [
          | inl g ↦ rw (e, fetch_block_logs) (rw g (Isolated-refl r c cache own))
          | inr (logs, g) ↦
              rw (e, fetch_block_logs)
                (rw g (cache_logs-Isolated r law up c small codec cache n logs own))
        ]
      ]

  see_block-Isolated :
      (u : UpstreamClient) (now : ℕ) (logs_of : ℕ → HttpOutcome) (s : Tracking r.State)
      (block : Value)
      → Owned r c s.cache
      → Isolated r c s.cache (see_block r codec c u now logs_of s block).1.cache
  unfolding accept
  see_block-Isolated u now logs_of s block own =
      let kept = Isolated-refl r c s.cache own in
      elim (Bool-cases (unusable r codec c s block)) [
        | inl e ↦ rw (see_block-unusable r codec c u now logs_of s block e) kept
        | inr e ↦ elim (Bool-cases (same r codec c s block)) [
          | inl f ↦ rw (see_block-same r codec c u now logs_of s block e f) kept
          | inr f ↦ elim (Bool-cases (lagging r codec c s block)) [
            | inl g ↦ rw (see_block-lagging r codec c u now logs_of s block e f g) kept
            | inr g ↦ elim (Bool-cases (replaced r codec c s block)) [
              | inl h ↦
                  rw (see_block-replaced r codec c u now logs_of s block e f g h)
                    (invalidate_head_cache-Isolated r law up c small s.cache own)
              | inr h ↦
                  let height = block_height block in
                  let hash = block_hash block in
                  let cached = Layer.cache_block r codec s.cache c height hash block in
                  rw (see_block-accept r codec c u now logs_of s block e f g h) (
                    Isolated-trans r c s.cache cached _
                      (cache_block-Isolated r law up c small codec s.cache height hash block own)
                      (λ own1. fetch_block_logs-Isolated u now (logs_of height) cached height own1))
            ]
          ]
        ]
      ]

  fetch_latest_block-Isolated :
      (u : UpstreamClient) (now : ℕ) (outcome : HttpOutcome) (logs_of : ℕ → HttpOutcome)
      (s : Tracking r.State)
      → Owned r c s.cache
      → Isolated r c s.cache (fetch_latest_block r codec c u now outcome logs_of s).1.cache
  unfolding fetch_latest_block
  fetch_latest_block-Isolated u now outcome logs_of s own =
      let kept = Isolated-refl r c s.cache own in
      elim (Option-cases (send_request u now outcome).1) [
        | inl e ↦ rw (e, fetch_latest_block) kept
        | inr (p, e) ↦ elim (Option-cases p.result) [
          | inl g ↦ rw (e, fetch_latest_block) (rw g kept)
          | inr (block, g) ↦ elim (Bool-cases (is_null block)) [
            | inl h ↦ rw (e, fetch_latest_block) (rw g (rw h kept))
            | inr h ↦
                rw (e, fetch_latest_block)
                  (rw g (
                    rw h
                      (see_block-Isolated (send_request u now outcome).0 now logs_of s block own)))
          ]
        ]
      ]

  pub poll-Isolated :
      (strategy : UpstreamStrategy) (x : Poll) (t : Tracker r.State)
      → Owned r c t.tracking.cache
      → Isolated r c t.tracking.cache (poll r codec c strategy x t).0.tracking.cache
  unfolding poll
  poll-Isolated strategy x t own =
      let kept = Isolated-refl r c t.tracking.cache own in
      elim (Option-cases (select_best_upstream x.gen_range strategy t.upstreams t.counter).0) [
        | inl e ↦ rw (e, poll) kept
        | inr (i, e) ↦ elim (Option-cases (get_elem? t.upstreams i)) [
          | inl g ↦ rw (e, poll) (rw g kept)
          | inr (u, g) ↦ elim (Bool-cases (try_acquire_rate_limit u x.acquired).1) [
            | inl ok ↦
                rw (e, poll)
                  (rw g (
                    rw ok (
                      fetch_latest_block-Isolated (try_acquire_rate_limit u x.acquired).0 x.answered
                        (x.block_reply i) (x.logs_reply i) t.tracking own)))
            | inr spent ↦ rw (e, poll) (rw g (rw spent kept))
          ]
        ]
      ]

  -- On a server that answers, and for chain numbers below 2 ^ 64: over the whole run of the tracker of a
  -- chain, reorganisations included, the set that tracks the head goes on to list keys of the chain
  -- only, and every value and every set under a key of another chain stays as it was.
  pub run-Isolated :
      (strategy : UpstreamStrategy) (xs : List Poll) (t : Tracker r.State)
      → Owned r c t.tracking.cache
      → Isolated r c t.tracking.cache (run r codec c strategy xs t).0.tracking.cache
  unfolding run
  run-Isolated strategy [] t own = Isolated-refl r c t.tracking.cache own
  run-Isolated strategy (x ∷ xs) t own =
      let t1 = (poll r codec c strategy x t).0 in
      Isolated-trans r c t.tracking.cache t1.tracking.cache _ (poll-Isolated strategy x t own)
        (λ own1. run-Isolated strategy xs t1 own1)
