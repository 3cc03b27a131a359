-- ===== src/Ws/Session.antt =====
-- A client's whole connection: the loop of `handle_ws_connection` in src/ws/handler.rs, between the two
-- ends that Ws.Connections counts, and the loop of the chain's dispatcher, `SubscriptionManager::run` in
-- src/ws/subscription.rs.
mod Counting
pub mod Leaked
pub mod Told
use poolbeg.Prelude.{
  ℕ, Bool, true, false, if◌then◌else◌, List, [], ◌∷◌, ◌++◌, Option, none, some, String,
}
use poolbeg.Value.{Value}
use poolbeg.Rpc.Codec.{Codec}
use poolbeg.Rpc.Handler.{World, Setup}
use poolbeg.Cache.Redis.{Redis}
use poolbeg.Upstream.Tracker.{BlockEvent}
use poolbeg.Ws.Subscription.{ClientSubscription, handle_event}
use poolbeg.Ws.Handler.{Connection, handle_ws_message, clean_up}

-- What `ws_rx.next()` yields; the end of the list is the end of the stream.
pub data ClientFrame : Type 0 where
  client_text : String → ClientFrame
  client_close client_ping client_other client_error : ClientFrame

module _ (r : Redis) (codec : Codec) (world : World) (setup : Setup)
    (to_lowercase : String → String) (uuid : ℕ → String) (tx : ℕ) where
  -- The loop over the frames, what it sends to the client, and whether it ends with a panic.
  unfoldable pub serve_frames :
      List ClientFrame → Connection r.State → Connection r.State × List Value × Bool
  serve_frames [] c = (c, [], false)
  serve_frames (client_text msg ∷ fs) c =
      let (c1, answer) = handle_ws_message r codec world setup to_lowercase uuid tx msg c in
      elim answer [
        | none ↦ (c1, [], true)
        | some response ↦
            let (c2, sent, panicked) = serve_frames fs c1 in
            (c2, elim response [ none ↦ sent | some resp ↦ resp ∷ sent ], panicked)
      ]
  serve_frames (client_close ∷ fs) c = (c, [], false)
  serve_frames (client_error ∷ fs) c = (c, [], false)
  serve_frames (client_ping ∷ fs) c = serve_frames fs c
  serve_frames (client_other ∷ fs) c = serve_frames fs c

  -- The connection from its first frame to its clean-up, which a panic skips.
  unfoldable pub handle_ws_connection :
      (ℕ → Bool) → List ClientFrame → Connection r.State → Connection r.State
  handle_ws_connection live fs c =
      let (c1, sent, panicked) = serve_frames fs c in if panicked then c1 else clean_up live c1

-- What `event_rx.recv()` yields.
pub data Received : Type 0 where
  received : BlockEvent → Received
  lagged : ℕ → Received
  closed_channel : Received

-- The notifications that the dispatcher sends; a lag loses events and goes on.
unfoldable pub run :
    (String → String)
    → (ℕ → Bool)
    → ℕ
    → List Received
    → List (String × ClientSubscription)
    → List (ℕ × Value)
run to_lowercase live own [] subs = []
run to_lowercase live own (received event ∷ rs) subs =
    handle_event to_lowercase live own event subs ++ run to_lowercase live own rs subs
run to_lowercase live own (lagged skipped ∷ rs) subs = run to_lowercase live own rs subs
run to_lowercase live own (closed_channel ∷ rs) subs = []
