-- ===== src/Upstream/Concurrent.antt =====
-- The block tracker and the subscriber of one chain as two tasks that run at once: `fetch_latest_block` of
-- src/upstream/tracker.rs, and `connect_and_subscribe` and `forward_notifications` of
-- src/upstream/ws_subscriber.rs. They share `ws_connected`, `latest_block_number` and the event channel. An
-- action is what a task does up to its next use of something shared, and a run is any sequence of actions
-- of the two. An action of a task that stands elsewhere does nothing.
pub mod Forwarding
pub mod Settled
pub mod Climbs
pub mod Ordered
pub mod Behind
use poolbeg.Prelude.{
  ℕ, Bool, true, false, not, ◌&&◌, ◌||◌, List, [], ◌∷◌, ◌++◌, Option, none, some, String, str_eq,
  ltb, leb, ◌==◌, if◌then◌else◌,
}
use poolbeg.Value.{Value}
use poolbeg.Rpc.Codec.{Codec}
use poolbeg.Cache.Redis.{Redis}
use poolbeg.Cache.Layer
use poolbeg.Upstream.Tracker.{
  BlockEvent, new_block, new_logs, reorg, strip_non_header_fields, block_height, block_hash,
  Tracking,
}
use poolbeg.Upstream.Subscriber.{
  Frame, text, ping, close, other, failed, header_in, header_height, header_hash,
}

-- Where the tracker stands: at the wait for a block, before it reads `ws_connected`, before it sends the
-- head, at the wait for the logs, or before it stores the number.
pub data Poller : Type 0 where
  idle : Poller
  cached telling : (height : ℕ) → (hash : String) → (block : Value) → Poller
  fetching logged : (height : ℕ) → (hash : String) → Poller

-- Where the subscriber stands: without a subscription, at the wait for a frame, or, with the number
-- stored, before it sends the head.
pub data Listener : Type 0 where
  away : Listener
  listening : (sub_id : String) → (last : ℕ) → Listener
  stored : (sub_id : String) → (header : Value) → Listener

pub record State (C : Type 0) : Type 0 where
  pub tracking : Tracking C
  pub poller : Poller
  pub listener : Listener

-- `polled` brings a block, `answered` the logs, `go_on` is any other action of the tracker. `subscribed`
-- brings the subscription's id, `framed` a frame, `announced` sends a head, and `ended` is the end of the
-- stream, or of an attempt without a subscription.
pub data Action : Type 0 where
  polled : Value → Action
  go_on : Action
  answered : Option Value → Action
  subscribed : String → Action
  framed : Frame → Action
  announced ended : Action

-- The tracker is between two polls.
abbrev pub resting : {C : Type 0} → Tracking C → Listener → State C
resting s l = record { tracking = s; poller = idle; listener = l }

module _ (r : Redis) (codec : Codec) (chain_id : ℕ) where
  -- `fetch_latest_block` from the comparison with the last block to the cached block.
  unfoldable pub look : State r.State → Value → State r.State × List BlockEvent
  look s block =
      let height = block_height block in
      let hash = block_hash block in
      let last = s.tracking.last_block_number in
      if height == 0 || str_eq hash ""
      then (s, [])
      else if height == last && str_eq hash s.tracking.last_block_hash
      then (s, [])
      else if ltb height last && ltb 0 last
      then (s, [])
      else if height == last && not (str_eq hash s.tracking.last_block_hash) && ltb 0 last
      then (
        record s {
          tracking = record s.tracking {
            cache = Layer.invalidate_head_cache r s.tracking.cache chain_id;
            last_block_hash = hash;
          };
        },
        reorg chain_id last height ∷ [],
      )
      else (
        record s {
          tracking = record s.tracking {
            cache = Layer.cache_block r codec s.tracking.cache chain_id height hash block;
          };
          poller = cached height hash block;
        },
        [],
      )

  unfoldable pub track : State r.State → Poller → State r.State × List BlockEvent
  track s idle = (s, [])
  track s (cached height hash block) =
      if not s.tracking.ws_connected
      then (record s { poller = telling height hash block }, [])
      else (record s { poller = fetching height hash }, [])
  track s (telling height hash block) = (
    record s { poller = fetching height hash },
    new_block chain_id height hash (strip_non_header_fields block) ∷ [],
  )
  track s (fetching height hash) = (s, [])
  track s (logged height hash) = (
    record s {
      tracking = record s.tracking {
        last_block_number = height;
        last_block_hash = hash;
        latest_block_number = height;
      };
      poller = idle;
    },
    [],
  )

  -- `fetch_block_logs` with its answer.
  unfoldable pub take_logs :
      State r.State → ℕ → String → Option Value → State r.State × List BlockEvent
  take_logs s height hash none = (record s { poller = logged height hash }, [])
  take_logs s height hash (some logs) = (
    record s {
      tracking = record s.tracking {
        cache = Layer.cache_logs r codec s.tracking.cache chain_id height logs;
      };
      poller = logged height hash;
    },
    new_logs chain_id height logs ∷ [],
  )

  abbrev pub leave : State r.State → State r.State
  leave s = record s { tracking = record s.tracking { ws_connected = false }; listener = away }

  -- One frame in `forward_notifications`, up to the store of the number.
  unfoldable pub hear : State r.State → String → ℕ → Frame → State r.State
  hear s sub_id last (text t) = elim (header_in codec sub_id t) [
    | none ↦ s
    | some header ↦
        if header_height header == 0 || str_eq (header_hash header) ""
        then s
        else if leb (header_height header) last
        then s
        else record s {
          tracking = record s.tracking { latest_block_number = header_height header };
          listener = stored sub_id header;
        }
  ]
  hear s sub_id last close = leave s
  hear s sub_id last failed = leave s
  hear s sub_id last ping = s
  hear s sub_id last other = s

  unfoldable pub act : State r.State → Action → State r.State × List BlockEvent
  act s (polled block) = elim s.poller [
    | idle ↦ look s block
    | cached h k b ↦ (s, [])
    | telling h k b ↦ (s, [])
    | fetching h k ↦ (s, [])
    | logged h k ↦ (s, [])
  ]
  act s go_on = track s s.poller
  act s (answered logs) = elim s.poller [
    | idle ↦ (s, [])
    | cached h k b ↦ (s, [])
    | telling h k b ↦ (s, [])
    | fetching h k ↦ take_logs s h k logs
    | logged h k ↦ (s, [])
  ]
  act s (subscribed sub_id) = elim s.listener [
    | away ↦ (
      record s {
        tracking = record s.tracking { ws_connected = true };
        listener = listening sub_id 0;
      },
      [],
    )
    | listening k last ↦ (s, [])
    | stored k header ↦ (s, [])
  ]
  act s (framed frame) = elim s.listener [
    | away ↦ (s, [])
    | listening sub_id last ↦ (hear s sub_id last frame, [])
    | stored k header ↦ (s, [])
  ]
  act s announced = elim s.listener [
    | away ↦ (s, [])
    | listening k last ↦ (s, [])
    | stored sub_id header ↦ (
      record s { listener = listening sub_id (header_height header) },
      new_block chain_id (header_height header) (header_hash header) header ∷ [],
    )
  ]
  act s ended = elim s.listener [
    | away ↦ (leave s, [])
    | listening k last ↦ (leave s, [])
    | stored k header ↦ (s, [])
  ]

  -- The events are in the order in which they are sent.
  unfoldable pub run : State r.State → List Action → State r.State × List BlockEvent
  run s [] = (s, [])
  run s (a ∷ rest) = let (s1, now) = act s a in let (s2, later) = run s1 rest in (s2, now ++ later)
