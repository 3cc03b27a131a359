-- ===== src/Upstream/Tracker/Heads.antt =====
-- The heads that the tracker announces, and when it reports a reorganisation.
use poolbeg.Prelude.{
  ℕ, ◌<◌, ◌≤◌, ◌≡◌, refl, ap, ◌⊎◌, inl, inr, ◌↔◌, Bool, true, false, not, ◌&&◌, ◌||◌, List, [], ◌∷◌,
  ◌++◌, String, str_eq, ltb, ◌==◌, any, Option-cases, Bool-cases, arith,
}
use poolbeg.Value.{Value, is_null}
use poolbeg.Rpc.Codec.{Codec}
use poolbeg.Cache.Redis.{Redis}
use poolbeg.Cache.Layer
use poolbeg.Upstream.Client.{UpstreamClient, HttpOutcome, send_request}
use poolbeg.Upstream.Tracker.{
  BlockEvent, new_block, new_logs, reorg, block_height, block_hash, Tracking, fetch_block_logs,
  accept, see_block, fetch_latest_block,
}

-- The heights that new heads are announced with.
unfoldable pub heights : List BlockEvent → List ℕ
heights [] = []
heights (new_block c h hash header ∷ es) = h ∷ heights es
heights (new_logs c h logs ∷ es) = heights es
heights (reorg c a b ∷ es) = heights es

unfoldable pub is_reorg : BlockEvent → Bool
is_reorg (reorg c a b) = true
is_reorg _ = false

-- Each number is above the one before it, and the first above `n`.
abbrev pub Ascending : ℕ → List ℕ → Type 0
Ascending n [] = Unit
Ascending n (h ∷ hs) = (n < h) × Ascending h hs

pub heights-append : (xs ys : List BlockEvent) → heights (xs ++ ys) ≡ heights xs ++ heights ys
unfolding heights
heights-append [] ys = refl
heights-append (new_block c h hash header ∷ xs) ys = ap (λ t. h ∷ t) (heights-append xs ys)
heights-append (new_logs c h logs ∷ xs) ys = heights-append xs ys
heights-append (reorg c a b ∷ xs) ys = heights-append xs ys

pub Ascending-weaken : (m n : ℕ) (hs : List ℕ) → m ≤ n → Ascending n hs → Ascending m hs
Ascending-weaken m n [] h a = a
Ascending-weaken m n (x ∷ hs) h (p, a) = (omega arith, a)

module _ (r : Redis) (codec : Codec) (chain_id : ℕ) where
  fetch_block_logs-heights :
      (u : UpstreamClient) (now : ℕ) (outcome : HttpOutcome) (cache : r.State) (n : ℕ)
      → (heights (fetch_block_logs r codec chain_id u now outcome cache n).2 ≡ [])
        × (any is_reorg (fetch_block_logs r codec chain_id u now outcome cache n).2 ≡ false)
  unfolding fetch_block_logs heights is_reorg
  fetch_block_logs-heights u now outcome cache n =
      elim (Option-cases (send_request u now outcome).1) [
        | inl e ↦ rw (e, fetch_block_logs) (refl, refl)
        | inr (p, e) ↦ elim (Option-cases p.result) [
          | inl g ↦ rw (e, fetch_block_logs) (rw g (refl, refl))
          | inr (logs, g) ↦ rw (e, fetch_block_logs) (rw g (refl, refl))
        ]
      ]

  -- What one fetch does to the heads: nothing is announced, or one head above the last one, which
  -- becomes the last one.
  abbrev pub Moves : Tracking r.State → Tracking r.State → List BlockEvent → Type 0
  Moves s s' es =
      (((heights es ≡ []) × (s.last_block_number ≤ s'.last_block_number))
        ⊎ ((heights es ≡ s'.last_block_number ∷ []) × (s.last_block_number < s'.last_block_number)))

  accept-Moves :
      (u : UpstreamClient) (now : ℕ) (logs_of : ℕ → HttpOutcome) (s : Tracking r.State) (height : ℕ)
      (hash : String) (block : Value)
      → s.last_block_number < height
      → Moves s
          (accept r codec chain_id u now logs_of s height hash block).1
          (accept r codec chain_id u now logs_of s height hash block).2
  unfolding accept heights
  accept-Moves u now logs_of s height hash block up =
      let (quiet, _) =
        fetch_block_logs-heights u now (logs_of height)
          (Layer.cache_block r codec s.cache chain_id height hash block) height in
      elim (Bool-cases s.ws_connected) [
        | inl e ↦ inl (rw (e, accept) quiet, omega arith)
        | inr e ↦ inr (rw (e, accept) (rw quiet), up)
      ]

  accept-no_reorg :
      (u : UpstreamClient) (now : ℕ) (logs_of : ℕ → HttpOutcome) (s : Tracking r.State) (height : ℕ)
      (hash : String) (block : Value)
      → any is_reorg (accept r codec chain_id u now logs_of s height hash block).2 ≡ false
  unfolding accept is_reorg
  accept-no_reorg u now logs_of s height hash block =
      let (_, none_there) =
        fetch_block_logs-heights u now (logs_of height)
          (Layer.cache_block r codec s.cache chain_id height hash block) height in
      elim (Bool-cases s.ws_connected) [
        | inl e ↦ rw (e, accept) none_there
        | inr e ↦ rw (e, accept) none_there
      ]

  -- The four tests of `see_block`, in their order.
  module _ (s : Tracking r.State) (block : Value) where
    abbrev pub unusable : Bool
    unusable = block_height block == 0 || str_eq (block_hash block) ""

    abbrev pub same : Bool
    same = block_height block == s.last_block_number && str_eq (block_hash block) s.last_block_hash

    abbrev pub lagging : Bool
    lagging = ltb (block_height block) s.last_block_number && ltb 0 s.last_block_number

    abbrev pub replaced : Bool
    replaced =
        block_height block == s.last_block_number
        && not (str_eq (block_hash block) s.last_block_hash)
        && ltb 0 s.last_block_number

    -- A block that passes every test is above the last one.
    pub higher :
        unusable ≡ false
        → same ≡ false
        → lagging ≡ false
        → replaced ≡ false
        → s.last_block_number < block_height block
    higher e f g h = ground (arith, e, f, g, h)

  module _ (u : UpstreamClient) (now : ℕ) (logs_of : ℕ → HttpOutcome) (s : Tracking r.State)
      (block : Value) where
    pub see_block-unusable :
        unusable s block ≡ true → see_block r codec chain_id u now logs_of s block ≡ (u, s, [])
    unfolding see_block
    see_block-unusable e = rw (e, see_block)

    pub see_block-same :
        unusable s block ≡ false
        → same s block ≡ true
        → see_block r codec chain_id u now logs_of s block ≡ (u, s, [])
    unfolding see_block
    see_block-same e f = rw (e, see_block) (rw f)

    pub see_block-lagging :
        unusable s block ≡ false
        → same s block ≡ false
        → lagging s block ≡ true
        → see_block r codec chain_id u now logs_of s block ≡ (u, s, [])
    unfolding see_block
    see_block-lagging e f g = rw (e, see_block) (rw f (rw g))

    pub see_block-replaced :
        unusable s block ≡ false
        → same s block ≡ false
        → lagging s block ≡ false
        → replaced s block ≡ true
        → see_block r codec chain_id u now logs_of s block ≡ (
          u,
          record s {
            cache = Layer.invalidate_head_cache r s.cache chain_id;
            last_block_hash = block_hash block;
          },
          reorg chain_id s.last_block_number (block_height block) ∷ [],
        )
    unfolding see_block
    see_block-replaced e f g h = rw (e, see_block) (rw f (rw g (rw h)))

    pub see_block-accept :
        unusable s block ≡ false
        → same s block ≡ false
        → lagging s block ≡ false
        → replaced s block ≡ false
        → see_block r codec chain_id u now logs_of s block
          ≡ accept r codec chain_id u now logs_of s (block_height block) (block_hash block) block
    unfolding see_block
    see_block-accept e f g h = rw (e, see_block) (rw f (rw g (rw h)))

    see_block-Moves :
        Moves s
          (see_block r codec chain_id u now logs_of s block).1
          (see_block r codec chain_id u now logs_of s block).2
    unfolding heights
    see_block-Moves = elim (Bool-cases (unusable s block)) [
      | inl e ↦ rw (see_block-unusable e) (inl (refl, omega arith))
      | inr e ↦ elim (Bool-cases (same s block)) [
        | inl f ↦ rw (see_block-same e f) (inl (refl, omega arith))
        | inr f ↦ elim (Bool-cases (lagging s block)) [
          | inl g ↦ rw (see_block-lagging e f g) (inl (refl, omega arith))
          | inr g ↦ elim (Bool-cases (replaced s block)) [
            | inl h ↦ rw (see_block-replaced e f g h) (inl (refl, omega arith))
            | inr h ↦ rw (see_block-accept e f g h) (
                accept-Moves u now logs_of s (block_height block) (block_hash block) block
                  (higher s block e f g h))
          ]
        ]
      ]
    ]

    -- A reorganisation is reported exactly if the block has a hash, the last height, which is above
    -- zero, and another hash than the last one.
    pub see_block-reorg_iff :
        (any is_reorg (see_block r codec chain_id u now logs_of s block).2 ≡ true) ↔ (
          (block_height block ≡ s.last_block_number)
          × (0 < s.last_block_number)
          × (str_eq (block_hash block) "" ≡ false)
          × (str_eq (block_hash block) s.last_block_hash ≡ false))
    unfolding is_reorg
    see_block-reorg_iff = elim (Bool-cases (unusable s block)) [
      | inl e ↦ rw (see_block-unusable e) (ground (arith, e))
      | inr e ↦ elim (Bool-cases (same s block)) [
        | inl f ↦ rw (see_block-same e f) (ground (arith, e, f))
        | inr f ↦ elim (Bool-cases (lagging s block)) [
          | inl g ↦ rw (see_block-lagging e f g) (ground (arith, e, f, g))
          | inr g ↦ elim (Bool-cases (replaced s block)) [
            | inl h ↦ rw (see_block-replaced e f g h) (ground (arith, e, f, g, h))
            | inr h ↦
                rw
                  (
                    see_block-accept e f g h,
                    accept-no_reorg u now logs_of s (block_height block) (block_hash block) block,
                  )
                  (ground (arith, e, f, g, h))
          ]
        ]
      ]
    ]

  pub fetch_latest_block-Moves :
      (u : UpstreamClient) (now : ℕ) (outcome : HttpOutcome) (logs_of : ℕ → HttpOutcome)
      (s : Tracking r.State)
      → Moves s
          (fetch_latest_block r codec chain_id u now outcome logs_of s).1
          (fetch_latest_block r codec chain_id u now outcome logs_of s).2
  unfolding fetch_latest_block heights
  fetch_latest_block-Moves u now outcome logs_of s =
      elim (Option-cases (send_request u now outcome).1) [
        | inl e ↦ rw (e, fetch_latest_block) (inl (refl, omega arith))
        | inr (p, e) ↦ elim (Option-cases p.result) [
          | inl g ↦ rw (e, fetch_latest_block) (rw g (inl (refl, omega arith)))
          | inr (block, g) ↦ elim (Bool-cases (is_null block)) [
            | inl h ↦ rw (e, fetch_latest_block) (rw g (rw h (inl (refl, omega arith))))
            | inr h ↦
                rw (e, fetch_latest_block)
                  (rw g (rw h (see_block-Moves (send_request u now outcome).0 now logs_of s block)))
          ]
        ]
      ]
