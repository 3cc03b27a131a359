-- ===== src/Ws/Handler.antt =====
-- A client's messages over WebSocket: src/ws/handler.rs. `uuid n` is the text of the `n`-th random
-- identifier, and `tx` the channel to the client. The upgrade, the sockets and the two forwarding tasks
-- are I/O.
pub mod Messages
use Prim.Native.String
use poolbeg.Prelude.{
  ℕ, suc, ◌+◌, ◌-◌, ◌%◌, Bool, true, false, List, [], ◌∷◌, Option, none, some, String, str_eq, ltb,
  leb, if◌then◌else◌, and_then, unwrap_or, get_elem?, length, to_decimal, u64_mod,
}
use poolbeg.Value.{
  Value, null, bool, string, number, array, nil, object, field, end, get, as_str, as_array,
  array_of,
}
use poolbeg.Rpc.Types.{JsonRpcRequest, is_method_blocked}
use poolbeg.Rpc.Codec.{Codec}
use poolbeg.Rpc.Handler.{World, Setup, Service, logged, process_single_request}
use poolbeg.Cache.Redis.{Redis}
use poolbeg.Ws.Subscription.{
  SubscriptionType, new_heads, logs, new_pending_transactions, syncing, LogFilter, from_value,
  ClientSubscription, subscribe, unsubscribe, remove_client_subscriptions,
}

-- The limit in `handle_ws`: whether the connection is upgraded.
unfoldable pub handle_ws : ℕ → ℕ → Bool
handle_ws max_ws current = if leb max_ws current then false else true

-- The state of a connection and the chain's count of subscriptions, a `usize` that wraps.
pub record Connection (C : Type 0) : Type 0 where
  pub service : Service C
  pub subscriptions : List (String × ClientSubscription)
  pub ws_subscriptions : ℕ
  pub issued : ℕ

unfoldable pub error_object : String → String → Value → Value
error_object code message id = object (
    field "jsonrpc" (string "2.0") (
      field "error" (object (field "code" (number code) (field "message" (string message) end)))
        (field "id" id end)))

unfoldable pub result_object : Value → Value → Value
result_object result id =
    object (field "jsonrpc" (string "2.0") (field "result" result (field "id" id end)))

-- The text at an index of the parameters.
abbrev text_at : Value → ℕ → String
text_at params i =
    unwrap_or (and_then (as_array params) (λ vs. and_then (get_elem? vs i) as_str)) ""

unfoldable pub subscription_kind :
    (String → String) → Value → Option (SubscriptionType × Option LogFilter)
subscription_kind to_lowercase params =
    let sub_type = text_at params 0 in
    if str_eq sub_type "newHeads"
    then some (new_heads, none)
    else if str_eq sub_type "logs"
    then some (
      logs,
      and_then (and_then (as_array params) (λ vs. get_elem? vs 1))
          (λ v. some (from_value to_lowercase v)),
    )
    else if str_eq sub_type "newPendingTransactions"
    then some (new_pending_transactions, none)
    else if str_eq sub_type "syncing"
    then some (syncing, none)
    else none

module _ (r : Redis) (codec : Codec) (world : World) (setup : Setup)
    (to_lowercase : String → String) (uuid : ℕ → String) (tx : ℕ) where
  unfoldable pub eth_subscribe :
      Value → Value → Connection r.State → Connection r.State × Option Value
  eth_subscribe params id c = elim (subscription_kind to_lowercase params) [
    | none ↦ (
      c,
      some (
          error_object "-32602" (String.◌++◌ "unsupported subscription type: " (text_at params 0))
            id),
    )
    | some (sub_type, log_filter) ↦
        let sub_id = String.◌++◌ "0x" (uuid c.issued) in
        (
          record c {
            subscriptions = subscribe sub_id sub_type log_filter tx c.subscriptions;
            ws_subscriptions = (c.ws_subscriptions + 1) % u64_mod;
            issued = suc c.issued;
          },
          some (result_object (string sub_id) id),
        )
  ]

  unfoldable pub eth_unsubscribe :
      Value → Value → Connection r.State → Connection r.State × Option Value
  eth_unsubscribe params id c =
      let (subs, success) = unsubscribe (text_at params 0) c.subscriptions in
      let c1 = record c { subscriptions = subs } in
      (
        (if success
            then record c1 { ws_subscriptions = (c.ws_subscriptions + (u64_mod - 1)) % u64_mod }
            else c1),
        some (result_object (bool success) id),
      )

  -- The log of the response is that of `log_client_response`, written out once more; `none` is a panic,
  -- here and below, and `some none` that there is no response.
  unfoldable pub call :
      String → Value → Value → Connection r.State → Connection r.State × Option (Option Value)
  call method params id c =
      let (service, answer) =
        process_single_request r codec world setup c.service
          (record { jsonrpc = "2.0"; method = method; params = params; id = id }) in
      (
        record c { service = service },
        and_then answer (λ sent.
            and_then (logged codec setup.server.debug_client sent)
              (λ resp. some (some (codec.value_of_response resp)))),
      )

  unfoldable pub handle_single_ws_request :
      Value → Connection r.State → Connection r.State × Option (Option Value)
  handle_single_ws_request parsed c =
      let id = unwrap_or (get parsed "id") null in
      let params = unwrap_or (get parsed "params") (array nil) in
      elim (and_then (get parsed "method") as_str) [
        | none ↦ (c, some (some (error_object "-32600" "Invalid Request: missing method" id)))
        | some method ↦
            if is_method_blocked method setup.server.blocked_methods
            then (c, some (some (error_object "-32601" "Method not allowed" id)))
            else if str_eq method "eth_subscribe"
            then (let (c1, resp) = eth_subscribe params id c in (c1, some resp))
            else if str_eq method "eth_unsubscribe"
            then (let (c1, resp) = eth_unsubscribe params id c in (c1, some resp))
            else call method params id c
      ]

  -- The requests of a batch, in order, up to the first panic; the responses that there are.
  unfoldable pub handle_items :
      List Value → Connection r.State → Connection r.State × Option (List Value)
  handle_items [] c = (c, some [])
  handle_items (item ∷ items) c =
      let (c1, answer) = handle_single_ws_request item c in
      elim answer [
        | none ↦ (c1, none)
        | some resp ↦
            let (c2, rest) = handle_items items c1 in
            (c2, and_then rest (λ resps. some (elim resp [ none ↦ resps | some v ↦ v ∷ resps ])))
      ]

  unfoldable pub handle_ws_message :
      String → Connection r.State → Connection r.State × Option (Option Value)
  handle_ws_message msg c = elim (codec.decode_value msg) [
    | none ↦ (c, some (some (error_object "-32700" "Parse error" null)))
    | some parsed ↦ elim (as_array parsed) [
      | none ↦ handle_single_ws_request parsed c
      | some arr ↦
          let (c', resps) = handle_items arr c in
          if ltb setup.server.max_batch_size (length arr)
          then (
            c,
            some (
                some (
                  error_object "-32600"
                    (String.◌++◌ "Batch too large: " (
                      String.◌++◌ (to_decimal (length arr)) (
                        String.◌++◌ " requests exceeds limit of "
                          (to_decimal setup.server.max_batch_size))))
                    null)),
          )
          else (c', and_then resps (λ vs. some (some (array_of vs))))
    ]
  ]

-- The clean-up at the end of `handle_ws_connection`; `live` tells the channels that are open then.
unfoldable pub clean_up : {C : Type 0} → (ℕ → Bool) → Connection C → Connection C
clean_up live c =
    let (subs, removed) = remove_client_subscriptions live c.subscriptions in
    record c {
      subscriptions = subs;
      ws_subscriptions = (c.ws_subscriptions + (u64_mod - removed)) % u64_mod;
    }
