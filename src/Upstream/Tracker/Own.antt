-- ===== src/Upstream/Tracker/Own.antt =====
-- The chain that the events of a tracker are of.
use poolbeg.Prelude.{
  ℕ, ◌≡◌, refl, inl, inr, List, [], ◌∷◌, ◌++◌, String, get_elem?, All, Option-cases, Bool-cases,
}
use poolbeg.Value.{Value, is_null}
use poolbeg.Config.{UpstreamStrategy}
use poolbeg.Rpc.Codec.{Codec}
use poolbeg.Cache.Redis.{Redis}
use poolbeg.Cache.Layer
use poolbeg.Upstream.Client.{UpstreamClient, HttpOutcome, send_request, try_acquire_rate_limit}
use poolbeg.Upstream.Tracker.{
  BlockEvent, new_block, new_logs, reorg, Tracking, fetch_block_logs, accept, see_block,
  fetch_latest_block, Poll, select_best_upstream, Tracker, poll, run,
}
use poolbeg.Upstream.Tracker.Heads.{
  unusable, same, lagging, replaced, see_block-unusable, see_block-same, see_block-lagging,
  see_block-replaced, see_block-accept,
}

unfoldable pub chain_of : BlockEvent → ℕ
chain_of (new_block chain_id height hash header) = chain_id
chain_of (new_logs chain_id block_number logs) = chain_id
chain_of (reorg chain_id from_block to_block) = chain_id

module _ (chain_id : ℕ) where
  abbrev pub Own : List BlockEvent → Type 0
  Own es = All (λ e. chain_of e ≡ chain_id) es

  Own-append : (xs ys : List BlockEvent) → Own xs → Own ys → Own (xs ++ ys)
  Own-append [] ys h k = k
  Own-append (x ∷ xs) ys (h, hs) k = (h, Own-append xs ys hs k)

  module _ (r : Redis) (codec : Codec) where
    fetch_block_logs-Own :
        (u : UpstreamClient) (now : ℕ) (outcome : HttpOutcome) (cache : r.State) (n : ℕ)
        → Own (fetch_block_logs r codec chain_id u now outcome cache n).2
    unfolding fetch_block_logs chain_of
    fetch_block_logs-Own u now outcome cache n =
        elim (Option-cases (send_request u now outcome).1) [
          | inl e ↦ rw (e, fetch_block_logs) tt
          | inr (p, e) ↦ elim (Option-cases p.result) [
            | inl g ↦ rw (e, fetch_block_logs) (rw g tt)
            | inr (logs, g) ↦ rw (e, fetch_block_logs) (rw g (refl, tt))
          ]
        ]

    module _ (u : UpstreamClient) (now : ℕ) (logs_of : ℕ → HttpOutcome) (s : Tracking r.State) where
      accept-Own :
          (height : ℕ) (hash : String) (block : Value)
          → Own (accept r codec chain_id u now logs_of s height hash block).2
      unfolding accept chain_of
      accept-Own height hash block =
          let logs =
            fetch_block_logs-Own u now (logs_of height)
              (Layer.cache_block r codec s.cache chain_id height hash block) height in
          elim (Bool-cases s.ws_connected) [
            | inl e ↦ rw (e, accept) logs
            | inr e ↦ rw (e, accept) (refl, logs)
          ]

      see_block-Own : (block : Value) → Own (see_block r codec chain_id u now logs_of s block).2
      unfolding chain_of
      see_block-Own block = elim (Bool-cases (unusable r codec chain_id s block)) [
        | inl e ↦ rw (see_block-unusable r codec chain_id u now logs_of s block e) tt
        | inr e ↦ elim (Bool-cases (same r codec chain_id s block)) [
          | inl f ↦ rw (see_block-same r codec chain_id u now logs_of s block e f) tt
          | inr f ↦ elim (Bool-cases (lagging r codec chain_id s block)) [
            | inl g ↦ rw (see_block-lagging r codec chain_id u now logs_of s block e f g) tt
            | inr g ↦ elim (Bool-cases (replaced r codec chain_id s block)) [
              | inl h ↦
                  rw (see_block-replaced r codec chain_id u now logs_of s block e f g h) (refl, tt)
              | inr h ↦
                  rw (see_block-accept r codec chain_id u now logs_of s block e f g h)
                    (accept-Own _ _ block)
            ]
          ]
        ]
      ]

    fetch_latest_block-Own :
        (u : UpstreamClient) (now : ℕ) (outcome : HttpOutcome) (logs_of : ℕ → HttpOutcome)
        (s : Tracking r.State)
        → Own (fetch_latest_block r codec chain_id u now outcome logs_of s).2
    unfolding fetch_latest_block
    fetch_latest_block-Own u now outcome logs_of s =
        elim (Option-cases (send_request u now outcome).1) [
          | inl e ↦ rw (e, fetch_latest_block) tt
          | inr (p, e) ↦ elim (Option-cases p.result) [
            | inl g ↦ rw (e, fetch_latest_block) (rw g tt)
            | inr (block, g) ↦ elim (Bool-cases (is_null block)) [
              | inl h ↦ rw (e, fetch_latest_block) (rw g (rw h tt))
              | inr h ↦
                  rw (e, fetch_latest_block)
                    (rw g (rw h (see_block-Own (send_request u now outcome).0 now logs_of s block)))
            ]
          ]
        ]

    module _ (strategy : UpstreamStrategy) where
      poll-Own : (x : Poll) (t : Tracker r.State) → Own (poll r codec chain_id strategy x t).1
      unfolding poll
      poll-Own x t =
          elim (Option-cases (select_best_upstream x.gen_range strategy t.upstreams t.counter).0) [
            | inl e ↦ rw (e, poll) tt
            | inr (i, e) ↦ elim (Option-cases (get_elem? t.upstreams i)) [
              | inl g ↦ rw (e, poll) (rw g tt)
              | inr (u, g) ↦ elim (Bool-cases (try_acquire_rate_limit u x.acquired).1) [
                | inl ok ↦
                    rw (e, poll)
                      (rw g (
                        rw ok (
                          fetch_latest_block-Own (try_acquire_rate_limit u x.acquired).0 x.answered
                            (x.block_reply i) (x.logs_reply i) t.tracking)))
                | inr spent ↦ rw (e, poll) (rw g (rw spent tt))
              ]
            ]
          ]

      pub run-Own :
          (xs : List Poll) (t : Tracker r.State) → Own (run r codec chain_id strategy xs t).1
      unfolding run
      run-Own [] t = tt
      run-Own (x ∷ xs) t =
          Own-append (poll r codec chain_id strategy x t).1 _ (poll-Own x t)
            (run-Own xs (poll r codec chain_id strategy x t).0)
