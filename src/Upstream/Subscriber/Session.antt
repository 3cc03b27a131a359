-- ===== src/Upstream/Subscriber/Session.antt =====
-- The subscriber's connections, one after another: `connect_and_subscribe` and the loop of `run` in
-- src/upstream/ws_subscriber.rs. A visit is what one round of the loop meets.
pub mod Backoff
use poolbeg.Prelude.{
  ℕ, Bool, true, false, ◌&&◌, List, [], ◌∷◌, Option, none, some, String, if◌then◌else◌, filter_map,
}
use poolbeg.Rpc.Codec.{Codec}
use poolbeg.Upstream.Client.{UpstreamClient}
use poolbeg.Upstream.Tracker.{BlockEvent}
use poolbeg.Upstream.Subscriber.{
  Frame, Round, no_upstream, disconnected, broken, pause, find_ws_upstream, read_subscription_id,
  forward_notifications, Stream,
}

-- The upstreams as they are; whether the socket connects and takes the request; and what it yields, where
-- `none` is a wait for the confirmation that takes too long.
pub record Visit : Type 0 where
  pub upstreams : List UpstreamClient
  pub connects : Bool
  pub sends : Bool
  pub frames : List (Option Frame)

-- `Ok(())` or an error, whether `ws_connected` was set, the events and the latest number.
pub record Linked : Type 0 where
  pub ok : Bool
  pub ws_connected : Bool
  pub events : List BlockEvent
  pub latest_block_number : ℕ

module _ (codec : Codec) (chain_id : ℕ) where
  unfoldable pub connect_and_subscribe : Visit → ℕ → Linked
  connect_and_subscribe v latest =
      let failure : Linked = record {
        ok = false;
        ws_connected = false;
        events = [];
        latest_block_number = latest;
      } in
      if v.connects && v.sends
      then elim (read_subscription_id codec v.frames) [
        | none ↦ failure
        | some (sub_id, rest) ↦
            let stream =
              forward_notifications codec chain_id sub_id (filter_map (λ f. f) rest) 0 latest in
            record {
              ok = stream.clean;
              ws_connected = true;
              events = stream.events;
              latest_block_number = stream.latest_block_number;
            }
      ]
      else failure

  -- One round up to its sleep.
  unfoldable pub visit : Visit → ℕ → Round × List BlockEvent × ℕ
  visit v latest =
      let linked = connect_and_subscribe v latest in
      elim (find_ws_upstream v.upstreams) [
        | none ↦ (no_upstream, [], latest)
        | some pair ↦
            (if linked.ok then disconnected else broken, linked.events, linked.latest_block_number)
      ]

  -- The loop: the sleep and the events of each round. Before every sleep `ws_connected` is false again.
  unfoldable pub run : List Visit → ℕ → ℕ → List (ℕ × List BlockEvent)
  run [] backoff latest = []
  run (v ∷ vs) backoff latest =
      let (round, events, latest') = visit v latest in
      let (sleep, backoff') = pause round backoff in (sleep, events) ∷ run vs backoff' latest'
