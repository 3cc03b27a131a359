-- ===== src/Upstream/Concurrent/Behind.antt =====
-- How the number that `eth_blockNumber` is answered with, and the heads, can go back.
use poolbeg.Prelude.{
  ℕ, ◌<◌, ◌≡◌, refl, true, false, ◌||◌, [], ◌∷◌, Option, none, some, String, str_eq, leb, ◌==◌,
  arith,
}
use poolbeg.Value.{Value}
use poolbeg.Rpc.Codec.{Codec}
use poolbeg.Cache.Redis.{Redis}
use poolbeg.Cache.Layer
use poolbeg.Upstream.Manager.{latest_block_number}
use poolbeg.Upstream.Tracker.{new_block, block_height, block_hash, Tracking}
use poolbeg.Upstream.Tracker.Heads.{heights, unusable, same, lagging, replaced}
use poolbeg.Upstream.Subscriber.{text, header_in, header_height, header_hash}
use poolbeg.Upstream.Concurrent.{
  State, cached, fetching, Listener, listening, polled, go_on, answered, subscribed, framed,
  announced, ended, stored, look, track, take_logs, hear, act, run,
}
use poolbeg.Upstream.Concurrent.{resting}

module _ (r : Redis) (codec : Codec) (chain_id : ℕ) where
  hear-header :
      (s : State r.State) (j : String) (n : ℕ) (t : String) (header : Value)
      → header_in codec j t ≡ some header
      → 0 < header_height header
      → str_eq (header_hash header) "" ≡ false
      → n < header_height header
      → hear r codec chain_id s j n (text t) ≡ (record s {
        tracking = record s.tracking { latest_block_number = header_height header };
        listener = stored j header;
      })
  unfolding hear
  hear-header s j n t header e high named above =
      let f : (header_height header == 0 || str_eq (header_hash header) "") ≡ false =
        ground (arith, high, named) in
      let g : leb (header_height header) n ≡ false = ground (arith, above) in
      rw (e, hear) (rw f (rw g refl))

  look-new :
      (s : Tracking r.State) (l : Listener) (block : Value)
      → s.last_block_number < block_height block
      → str_eq (block_hash block) "" ≡ false
      → look r codec chain_id (resting s l) block ≡ (
        record {
          tracking = record s {
            cache =
                Layer.cache_block r codec s.cache chain_id
                  (block_height block)
                  (block_hash block)
                  block;
          };
          poller = cached (block_height block) (block_hash block) block;
          listener = l;
        },
        [],
      )
  unfolding look
  look-new s l block new named =
      let e : unusable r codec chain_id s block ≡ false = ground (arith, new, named) in
      let f : same r codec chain_id s block ≡ false = ground (arith, new) in
      let g : lagging r codec chain_id s block ≡ false = ground (arith, new) in
      let h : replaced r codec chain_id s block ≡ false = ground (arith, new) in
      rw (e, look) (rw f (rw g (rw h refl)))

  -- The state in which the tracker waits for the logs of a new block, while a subscription is up.
  abbrev waiting_for_logs : Tracking r.State → Value → String → ℕ → State r.State
  waiting_for_logs s block j n = record {
    tracking = record s {
      cache =
          Layer.cache_block r codec s.cache chain_id (block_height block) (block_hash block) block;
      ws_connected = true;
    };
    poller = fetching (block_height block) (block_hash block);
    listener = listening j n;
  }

  nonzero : (h : ℕ) → 0 < h → latest_block_number h ≡ some h
  unfolding latest_block_number
  nonzero h high = ground (arith, high)

  -- While a subscription is up, the tracker gets a new block, and before it has the block's logs the
  -- subscriber forwards a higher head: then the clients are told of the higher head, and afterwards
  -- `eth_blockNumber` is answered with the lower number.
  pub run-latest_block_number :
      (s : Tracking r.State) (block : Value) (logs : Option Value) (j : String) (n : ℕ) (t : String)
      (header : Value)
      → s.ws_connected ≡ true
      → s.last_block_number < block_height block
      → str_eq (block_hash block) "" ≡ false
      → header_in codec j t ≡ some header
      → str_eq (header_hash header) "" ≡ false
      → n < header_height header
      → block_height block < header_height header
      → (heights
            (run r codec chain_id
              (resting s (listening j n))
              (polled block ∷ go_on ∷ framed (text t) ∷ announced ∷ answered logs ∷ go_on ∷ [])).1
          ≡ header_height header ∷ [])
        × (latest_block_number
              (run r codec chain_id (resting s (listening j n)) (
                polled block
                ∷ go_on
                ∷ framed (text t)
                ∷ announced
                ∷ answered logs
                ∷ go_on
                ∷ [])).0.tracking.latest_block_number
            ≡ some (block_height block))
  unfolding run act track take_logs heights
  run-latest_block_number s block none j n t header up new named e named' above higher =
      let met =
        hear-header (waiting_for_logs s block j n) j n t header e (omega (arith, higher)) named'
          above in
      let shown = nonzero (block_height block) (omega (arith, new)) in
      rw (look-new s (listening j n) block new named) (rw up (rw met (refl, shown)))
  run-latest_block_number s block (some logs) j n t header up new named e named' above higher =
      let met =
        hear-header (waiting_for_logs s block j n) j n t header e (omega (arith, higher)) named'
          above in
      let shown = nonzero (block_height block) (omega (arith, new)) in
      rw (look-new s (listening j n) block new named) (rw up (rw met (refl, shown)))

  -- After a subscription has ended and another begun, the first usable header that comes is announced
  -- and becomes the number that `eth_blockNumber` is answered with, whatever its height and the heads
  -- before it.
  pub run-subscribed :
      (s : State r.State) (i j : String) (n : ℕ) (t : String) (header : Value)
      → s.listener ≡ listening i n
      → header_in codec j t ≡ some header
      → 0 < header_height header
      → str_eq (header_hash header) "" ≡ false
      → ((run r codec chain_id s (ended ∷ subscribed j ∷ framed (text t) ∷ announced ∷ [])).1
          ≡ new_block chain_id (header_height header) (header_hash header) header ∷ [])
        × (latest_block_number
              (run r codec chain_id s (
                ended
                ∷ subscribed j
                ∷ framed (text t)
                ∷ announced
                ∷ [])).0.tracking.latest_block_number
            ≡ some (header_height header))
  unfolding run act
  run-subscribed s i j n t header there e high named =
      let met =
        hear-header
          (record s {
            tracking = record s.tracking { ws_connected = true };
            listener = listening j 0;
          })
          j 0 t header e high named high in
      rw there (rw met (refl, nonzero (header_height header) high))
