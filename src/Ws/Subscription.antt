-- ===== src/Ws/Subscription.antt =====
-- The subscriptions of a connection: src/ws/subscription.rs. A channel to a client is a number, and
-- `live` tells the channels whose receiver still lives. `to_lowercase` is the Unicode mapping of the
-- standard library, a parameter. What is sent is the list of pairs of a channel and a notification.
pub mod Dispatch
use Prim.Native.String
use Prim.Native.Char.{Char, code}
use poolbeg.Prelude.{
  ℕ, zero, suc, ◌+◌, ◌-◌, Bool, true, false, not, ◌&&◌, ◌||◌, List, [], ◌∷◌, ◌++◌, Option, none,
  some, String, ltb, leb, ◌==◌, if◌then◌else◌, and_then, unwrap_or, is_some, any, keep, map,
  filter_map, length, get_elem?, insert, remove, lookup,
}
use poolbeg.Value.{Value, object, Fields, end, field, string, get, as_str, as_array, is_null}
use poolbeg.Upstream.Tracker.{BlockEvent, new_block, new_logs, reorg}

pub data SubscriptionType : Type 0 where
  new_heads logs new_pending_transactions syncing : SubscriptionType

pub record LogFilter : Type 0 where
  pub address : Option (List String)
  pub topics : Option (List (Option (List String)))

pub record ClientSubscription : Type 0 where
  pub subscription_id : String
  pub sub_type : SubscriptionType
  pub log_filter : Option LogFilter
  pub tx : ℕ

abbrev ascii_lower : Char → ℕ
ascii_lower c = let k = code c in if leb b'A' k && leb k b'Z' then k + 32 else k

unfoldable pub eq_ignore_ascii_case : String → String → Bool
eq_ignore_ascii_case String.[] String.[] = true
eq_ignore_ascii_case (String.◌∷◌ c s) (String.◌∷◌ d t) =
    ascii_lower c == ascii_lower d && eq_ignore_ascii_case s t
eq_ignore_ascii_case _ _ = false

module _ (to_lowercase : String → String) where
  abbrev lower_text : Value → Option String
  lower_text v = and_then (as_str v) (λ s. some (to_lowercase s))

  -- A text, or the texts of an array.
  unfoldable pub texts_of : Value → Option (List String)
  texts_of v = elim (as_str v) [
    | some s ↦ some (to_lowercase s ∷ [])
    | none ↦ and_then (as_array v) (λ vs. some (filter_map lower_text vs))
  ]

  unfoldable pub from_value : Value → LogFilter
  from_value v = record {
    address = and_then (get v "address") texts_of;
    topics = and_then (get v "topics") (λ t.
        and_then (as_array t)
          (λ vs. some (map (λ topic. if is_null topic then none else texts_of topic) vs)));
  }

  unfoldable pub address_matches : Option (List String) → Value → Bool
  address_matches none log = true
  address_matches (some addrs) log = elim (and_then (get log "address") as_str) [
    | some log_addr ↦ any (λ a. eq_ignore_ascii_case a log_addr) addrs
    | none ↦ false
  ]

  -- The filter's topics against the log's, position by position.
  unfoldable pub topics_match : List (Option (List String)) → List String → Bool
  topics_match [] log_topics = true
  topics_match (none ∷ fs) [] = topics_match fs []
  topics_match (none ∷ fs) (t ∷ ts) = topics_match fs ts
  topics_match (some filter_values ∷ fs) [] = false
  topics_match (some filter_values ∷ fs) (t ∷ ts) =
      any (λ f. eq_ignore_ascii_case f t) filter_values && topics_match fs ts

  unfoldable pub matches : LogFilter → Value → Bool
  matches filter log =
      let log_topics =
        unwrap_or
          (and_then (get log "topics")
            (λ t. and_then (as_array t) (λ vs. some (filter_map lower_text vs))))
          [] in
      address_matches filter.address log
      && elim filter.topics [ none ↦ true | some topics ↦ topics_match topics log_topics ]

abbrev pub is_new_heads : SubscriptionType → Bool
is_new_heads new_heads = true
is_new_heads _ = false

abbrev pub is_logs : SubscriptionType → Bool
is_logs logs = true
is_logs _ = false

-- The map of the subscriptions by their id.
unfoldable pub subscribe :
    String
    → SubscriptionType
    → Option LogFilter
    → ℕ
    → List (String × ClientSubscription)
    → List (String × ClientSubscription)
subscribe subscription_id sub_type log_filter tx subs =
    insert subscription_id
      (record {
        subscription_id = subscription_id;
        sub_type = sub_type;
        log_filter = log_filter;
        tx = tx;
      })
      subs

unfoldable pub unsubscribe :
    String → List (String × ClientSubscription) → List (String × ClientSubscription) × Bool
unsubscribe subscription_id subs =
    (remove subscription_id subs, is_some (lookup subscription_id subs))

-- `retain` keeps the subscriptions whose channel is open; the number of those removed.
unfoldable pub remove_client_subscriptions :
    (ℕ → Bool) → List (String × ClientSubscription) → List (String × ClientSubscription) × ℕ
remove_client_subscriptions live subs =
    let kept = keep (λ p. live p.1.tx) subs in (kept, length subs - length kept)

unfoldable pub notification : String → Value → Value
notification subscription_id result = object (
    field "jsonrpc" (string "2.0") (
      field "method" (string "eth_subscription") (
        field "params"
          (object (field "subscription" (string subscription_id) (field "result" result end)))
          end)))

module _ (to_lowercase : String → String) (live : ℕ → Bool) where
  unfoldable pub dispatch_new_heads : Value → List (String × ClientSubscription) → List (ℕ × Value)
  dispatch_new_heads header [] = []
  dispatch_new_heads header ((k, sub) ∷ subs) =
      let later = dispatch_new_heads header subs in
      if is_new_heads sub.sub_type && live sub.tx
      then (sub.tx, notification sub.subscription_id header) ∷ later
      else later

  abbrev pub wants : ClientSubscription → Value → Bool
  wants sub log = elim sub.log_filter [
    | some filter ↦ matches to_lowercase filter log
    | none ↦ true
  ]

  -- The loop over the logs for one subscription; it breaks at the first send that fails.
  unfoldable pub send_logs : ClientSubscription → List Value → List (ℕ × Value)
  send_logs sub [] = []
  send_logs sub (log ∷ rest) =
      let later = send_logs sub rest in
      if wants sub log
      then (if live sub.tx then (sub.tx, notification sub.subscription_id log) ∷ later else [])
      else later

  unfoldable pub dispatch_to : List Value → List (String × ClientSubscription) → List (ℕ × Value)
  dispatch_to log_array [] = []
  dispatch_to log_array ((k, sub) ∷ subs) =
      let later = dispatch_to log_array subs in
      if is_logs sub.sub_type then send_logs sub log_array ++ later else later

  unfoldable pub dispatch_logs : Value → List (String × ClientSubscription) → List (ℕ × Value)
  dispatch_logs entries subs = elim (as_array entries) [
    | none ↦ []
    | some log_array ↦ dispatch_to log_array subs
  ]

  unfoldable pub handle_event :
      ℕ → BlockEvent → List (String × ClientSubscription) → List (ℕ × Value)
  handle_event own (new_block chain_id height hash header) subs =
      if not (chain_id == own) then [] else dispatch_new_heads header subs
  handle_event own (new_logs chain_id block_number entries) subs =
      if not (chain_id == own) then [] else dispatch_logs entries subs
  handle_event own (reorg chain_id from_block to_block) subs = []
