-- ===== src/Upstream/Subscriber.antt =====
-- The subscriber to an upstream's new heads: src/upstream/ws_subscriber.rs. The frames that the socket
-- yields are a list, whose end is the end of the stream; `none` among the frames that
-- `read_subscription_id` waits for is a wait that exceeds its timeout.
pub mod Forwarded
pub mod Session
pub mod Spawned
use poolbeg.Prelude.{
  ℕ, ◌*◌, Bool, true, false, not, ◌&&◌, ◌||◌, List, [], ◌∷◌, Option, none, some, String, str_eq,
  ltb, leb, ◌==◌, if◌then◌else◌, and_then, unwrap_or, parse_hex, find_first, is_some, min,
}
use poolbeg.Value.{Value, null, bool, number, string, array, object, get, as_str}
use poolbeg.Config.{UpstreamRole}
use poolbeg.Config.Duration.{from_secs}
use poolbeg.Rpc.Codec.{Codec}
use poolbeg.Upstream.Client.{UpstreamClient, is_healthy}
use poolbeg.Upstream.Manager.{same_role, roles_in_order}
use poolbeg.Upstream.Tracker.{BlockEvent, new_block}

pub data Frame : Type 0 where
  text : String → Frame
  ping close other failed : Frame

abbrev pub min_backoff : ℕ
min_backoff = from_secs 1

abbrev pub max_backoff : ℕ
max_backoff = from_secs 60

-- The first upstream of a role that is healthy and has a WebSocket address.
abbrev pub ws_in_role : UpstreamRole → List UpstreamClient → Option (String × String)
ws_in_role role us =
    and_then
      (find_first (λ u. same_role u.role role && is_healthy u && not u.disabled && is_some u.ws_url)
        us)
      (λ u. and_then u.ws_url (λ ws_url. some (u.id, ws_url)))

unfoldable pub find_ws_from : List UpstreamRole → List UpstreamClient → Option (String × String)
find_ws_from [] us = none
find_ws_from (role ∷ roles) us = elim (ws_in_role role us) [
  | some found ↦ some found
  | none ↦ find_ws_from roles us
]

unfoldable pub find_ws_upstream : List UpstreamClient → Option (String × String)
find_ws_upstream us = find_ws_from roles_in_order us

-- What one round of the loop in `run` meets: no upstream, a clean disconnect or an error.
pub data Round : Type 0 where
  no_upstream disconnected broken : Round

-- The sleep of a round, and the backoff that it leaves.
unfoldable pub pause : Round → ℕ → ℕ × ℕ
pause no_upstream backoff = (backoff, min (backoff * 2) max_backoff)
pause disconnected backoff = (min_backoff, min (min_backoff * 2) max_backoff)
pause broken backoff = (backoff, min (backoff * 2) max_backoff)

-- The sleeps of the loop, from a backoff on.
unfoldable pub sleeps : List Round → ℕ → List ℕ
sleeps [] backoff = []
sleeps (round ∷ rounds) backoff =
    let (sleep, backoff') = pause round backoff in sleep ∷ sleeps rounds backoff'

-- `parsed.get("id") == Some(&Value::Number(1.into()))`
abbrev is_number_one : Option Value → Bool
is_number_one (some (number t)) = str_eq t "1"
is_number_one _ = false

-- What a text says of the subscription: `none` to go on waiting, `some none` for an error.
unfoldable pub confirmation : Codec → String → Option (Option String)
confirmation codec t = elim (codec.decode_value t) [
  | none ↦ some none
  | some parsed ↦
      if is_number_one (get parsed "id")
      then elim (get parsed "result") [
        | some result ↦
            let sub_id = unwrap_or (as_str result) "" in
            if str_eq sub_id "" then some none else some (some sub_id)
        | none ↦ if is_some (get parsed "error") then some none else none
      ]
      else none
]

-- The subscription's id and the frames after it; `none` is an error.
unfoldable pub read_subscription_id :
    Codec → List (Option Frame) → Option (String × List (Option Frame))
read_subscription_id codec [] = none
read_subscription_id codec (none ∷ fs) = none
read_subscription_id codec (some (text t) ∷ fs) =
    let later = read_subscription_id codec fs in
    elim (confirmation codec t) [
      | none ↦ later
      | some none ↦ none
      | some (some sub_id) ↦ some (sub_id, fs)
    ]
read_subscription_id codec (some close ∷ fs) = none
read_subscription_id codec (some failed ∷ fs) = none
read_subscription_id codec (some ping ∷ fs) = read_subscription_id codec fs
read_subscription_id codec (some other ∷ fs) = read_subscription_id codec fs

-- The header in a notification of the subscription.
unfoldable pub header_in : Codec → String → String → Option Value
header_in codec sub_id t = and_then (codec.decode_value t) (λ parsed.
    if str_eq (unwrap_or (and_then (get parsed "method") as_str) "") "eth_subscription"
    then and_then (get parsed "params") (λ params.
      if str_eq (unwrap_or (and_then (get params "subscription") as_str) "") sub_id
      then get params "result"
      else none)
    else none)

abbrev pub header_height : Value → ℕ
header_height header = unwrap_or (and_then (and_then (get header "number") as_str) parse_hex) 0

abbrev pub header_hash : Value → String
header_hash header = unwrap_or (and_then (get header "hash") as_str) ""

-- The events sent, the number that the manager reads, and whether the loop ended without an error.
pub record Stream : Type 0 where
  pub events : List BlockEvent
  pub latest_block_number : ℕ
  pub clean : Bool

unfoldable pub forward_notifications : Codec → ℕ → String → List Frame → ℕ → ℕ → Stream
forward_notifications codec chain_id sub_id [] last latest = record {
  events = [];
  latest_block_number = latest;
  clean = true;
}
forward_notifications codec chain_id sub_id (text t ∷ fs) last latest =
    let same = forward_notifications codec chain_id sub_id fs last latest in
    elim (header_in codec sub_id t) [
      | none ↦ same
      | some header ↦
          let height = header_height header in
          let hash = header_hash header in
          let next = forward_notifications codec chain_id sub_id fs height height in
          if height == 0 || str_eq hash ""
          then same
          else if leb height last
          then same
          else record next { events = new_block chain_id height hash header ∷ next.events }
    ]
forward_notifications codec chain_id sub_id (close ∷ fs) last latest = record {
  events = [];
  latest_block_number = latest;
  clean = true;
}
forward_notifications codec chain_id sub_id (failed ∷ fs) last latest = record {
  events = [];
  latest_block_number = latest;
  clean = false;
}
forward_notifications codec chain_id sub_id (ping ∷ fs) last latest =
    forward_notifications codec chain_id sub_id fs last latest
forward_notifications codec chain_id sub_id (other ∷ fs) last latest =
    forward_notifications codec chain_id sub_id fs last latest
