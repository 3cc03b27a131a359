-- ===== src/Upstream/Tracker/Latest.antt =====
-- The number that the chain's manager reads, after a head was announced.
use poolbeg.Prelude.{
  ℕ, ◌<◌, ◌≡◌, refl, sym, ◌∙◌, ◌⊎◌, inl, inr, List, [], ◌∷◌, get_elem?, Option-cases, Bool-cases,
  arith,
}
use poolbeg.Value.{Value, is_null}
use poolbeg.Config.{UpstreamStrategy}
use poolbeg.Rpc.Codec.{Codec}
use poolbeg.Cache.Redis.{Redis}
use poolbeg.Upstream.Client.{UpstreamClient, HttpOutcome, send_request, try_acquire_rate_limit}
use poolbeg.Upstream.Tracker.{
  BlockEvent, Tracking, Poll, Tracker, accept, see_block, fetch_latest_block, select_best_upstream,
  poll,
}
use poolbeg.Upstream.Tracker.Heads.{
  heights, unusable, same, lagging, replaced, see_block-unusable, see_block-same, see_block-lagging,
  see_block-replaced, see_block-accept,
}
use poolbeg.Upstream.Tracker.Announced.{poll-Moves}

module _ (r : Redis) (codec : Codec) (chain_id : ℕ) where
  -- No head is announced, or the number that the manager reads is the tracker's last one.
  abbrev Agrees : Tracking r.State → List BlockEvent → Type 0
  Agrees s es = (heights es ≡ []) ⊎ (s.latest_block_number ≡ s.last_block_number)

  see_block-Agrees :
      (u : UpstreamClient) (now : ℕ) (logs_of : ℕ → HttpOutcome) (s : Tracking r.State)
      (block : Value)
      → Agrees
          (see_block r codec chain_id u now logs_of s block).1
          (see_block r codec chain_id u now logs_of s block).2
  unfolding accept heights
  see_block-Agrees u now logs_of s block = elim (Bool-cases (unusable r codec chain_id s block)) [
    | inl e ↦ rw (see_block-unusable r codec chain_id u now logs_of s block e) (inl refl)
    | inr e ↦ elim (Bool-cases (same r codec chain_id s block)) [
      | inl f ↦ rw (see_block-same r codec chain_id u now logs_of s block e f) (inl refl)
      | inr f ↦ elim (Bool-cases (lagging r codec chain_id s block)) [
        | inl g ↦ rw (see_block-lagging r codec chain_id u now logs_of s block e f g) (inl refl)
        | inr g ↦ elim (Bool-cases (replaced r codec chain_id s block)) [
          | inl h ↦
              rw (see_block-replaced r codec chain_id u now logs_of s block e f g h) (inl refl)
          | inr h ↦ rw (see_block-accept r codec chain_id u now logs_of s block e f g h) (inr refl)
        ]
      ]
    ]
  ]

  fetch_latest_block-Agrees :
      (u : UpstreamClient) (now : ℕ) (outcome : HttpOutcome) (logs_of : ℕ → HttpOutcome)
      (s : Tracking r.State)
      → Agrees
          (fetch_latest_block r codec chain_id u now outcome logs_of s).1
          (fetch_latest_block r codec chain_id u now outcome logs_of s).2
  unfolding fetch_latest_block heights
  fetch_latest_block-Agrees u now outcome logs_of s =
      elim (Option-cases (send_request u now outcome).1) [
        | inl e ↦ rw (e, fetch_latest_block) (inl refl)
        | inr (p, e) ↦ elim (Option-cases p.result) [
          | inl g ↦ rw (e, fetch_latest_block) (rw g (inl refl))
          | inr (block, g) ↦ elim (Bool-cases (is_null block)) [
            | inl h ↦ rw (e, fetch_latest_block) (rw g (rw h (inl refl)))
            | inr h ↦
                rw (e, fetch_latest_block)
                  (rw g
                    (rw h (see_block-Agrees (send_request u now outcome).0 now logs_of s block)))
          ]
        ]
      ]

  poll-Agrees :
      (strategy : UpstreamStrategy) (x : Poll) (t : Tracker r.State)
      → Agrees
          (poll r codec chain_id strategy x t).0.tracking
          (poll r codec chain_id strategy x t).1
  unfolding poll heights
  poll-Agrees strategy x t =
      elim (Option-cases (select_best_upstream x.gen_range strategy t.upstreams t.counter).0) [
        | inl e ↦ rw (e, poll) (inl refl)
        | inr (i, e) ↦ elim (Option-cases (get_elem? t.upstreams i)) [
          | inl g ↦ rw (e, poll) (rw g (inl refl))
          | inr (u, g) ↦ elim (Bool-cases (try_acquire_rate_limit u x.acquired).1) [
            | inl ok ↦
                rw (e, poll)
                  (rw g (
                    rw ok (
                      fetch_latest_block-Agrees (try_acquire_rate_limit u x.acquired).0 x.answered
                        (x.block_reply i) (x.logs_reply i) t.tracking)))
            | inr spent ↦ rw (e, poll) (rw g (rw spent (inl refl)))
          ]
        ]
      ]

  -- A head that is announced is above zero, and is the number that the manager reads from then on.
  pub poll-announced :
      (strategy : UpstreamStrategy) (x : Poll) (t : Tracker r.State) (h : ℕ)
      → heights (poll r codec chain_id strategy x t).1 ≡ h ∷ []
      → (0 < h) × ((poll r codec chain_id strategy x t).0.tracking.latest_block_number ≡ h)
  poll-announced strategy x t h e = elim (poll-Moves r codec chain_id strategy x t) [
    | inl (quiet, up) ↦ absurd (cc)
    | inr (one, up) ↦
        let same = first_of h _ (sym e ∙ one) in
        elim (poll-Agrees strategy x t) [
          | inl quiet ↦ absurd (cc)
          | inr latest ↦ (omega (arith, same, up), latest ∙ sym same)
        ]
  ]
    where
      first_of : (a b : ℕ) → a ∷ [] ≡ b ∷ [] → a ≡ b
      first_of a b e = ground (arith, e)
