-- ===== src/Tests/UpstreamTests.antt =====
-- The upstreams on sample outcomes.
use poolbeg.Ws.Session as Dispatcher
use poolbeg.Ws.Session.{received}
use poolbeg.Ws.Session.Told.{told, headers, run-headers}
use poolbeg.Ws.Subscription.{SubscriptionType, new_heads, ClientSubscription, notification}
use poolbeg.Prelude.{map}
use poolbeg.Upstream.Tracker.{BlockEvent}
use poolbeg.Prelude.{
  get_elem?, map, false, ℕ, ◌+◌, ◌≤◌, ◌<◌, ◌≡◌, ◌↔◌, refl, List, [], ◌∷◌, none, some, String,
  str_eq, any, true, false, arith, length, leb, parse_hex,
}
use poolbeg.Value.{Value, number, string, object, field, end}
use poolbeg.Config.{primary, fallback, lowest_latency, round_robin}
use poolbeg.Rpc.Types.{JsonRpcResponse}
use poolbeg.Middleware.RateLimit
use poolbeg.Middleware.RateLimit.{one_token}
use poolbeg.Upstream.Client.{
  reply, is_healthy, try_acquire_rate_limit, recent, is_due_for_check, max_consecutive_failures,
}
use poolbeg.Upstream.Client.Health.{failures, http_errors, failures-disable, http_errors-disable}
use poolbeg.Upstream.Strategy.{select, select_nth, select-round_robin}
use poolbeg.Upstream.HealthCheck.{tick, height_of, tick-recovers}
use poolbeg.Upstream.Manager.{forwarded, forward_request}
use poolbeg.Upstream.Manager.Failover.{forward_request-answers}
use poolbeg.Upstream.Manager.Failover.Once.{AtMostOnce, forward_request-AtMostOnce}
use poolbeg.Upstream.Tracker.{Poll, Tracker, Tracking, see_block, block_height, run}
use poolbeg.Upstream.Tracker.Heads.{heights, is_reorg, Ascending, see_block-reorg_iff}
use poolbeg.Upstream.Subscriber.{text, ping, close, forward_notifications}
use poolbeg.Upstream.Subscriber.Forwarded.{final, forward_notifications-Ascending}
use poolbeg.Upstream.Subscriber.{find_ws_upstream, find_ws_from, min_backoff}
use poolbeg.Upstream.Subscriber.Session
use poolbeg.Upstream.Subscriber.Session.{Visit, visit, connect_and_subscribe}
use poolbeg.Upstream.Subscriber.Session.Backoff.{Fails, run-backoff}
use poolbeg.Tests.Memory.{Store, memory}
use poolbeg.Tests.Samples.{codec, manager, exchange, upstream, answer_of, empty}

token_there : (try_acquire_rate_limit (upstream fallback) 1000).1 ≡ true
unfolding try_acquire_rate_limit RateLimit.try_acquire
token_there = refl

forward_request-answers_example :
    (r : JsonRpcResponse) × ((forward_request exchange manager).1 ≡ forwarded r)
forward_request-answers_example =
    forward_request-answers exchange manager 1 200 800 (upstream fallback) (answer_of (number "9"))
      refl refl token_there refl refl (λ r. refl)

forward_request-AtMostOnce_example :
    AtMostOnce exchange 0
      (upstream primary)
      (get_elem? (forward_request exchange manager).0.upstreams 0)
forward_request-AtMostOnce_example =
    forward_request-AtMostOnce exchange manager 0 (upstream primary) refl

failures-disable_example :
    (failures (upstream primary) (1 ∷ 2 ∷ 3 ∷ [])).disabled ≡ leb max_consecutive_failures 3
failures-disable_example =
    failures-disable (upstream primary) (1 ∷ 2 ∷ 3 ∷ []) refl refl (omega arith)

abbrev times : List ℕ
times = 1 ∷ 2 ∷ 3 ∷ 4 ∷ 5 ∷ []

http_errors-disable_example : (http_errors (upstream primary) times).disabled ≡ true
http_errors-disable_example =
    http_errors-disable (upstream primary) 0 20 times
      (
        (omega arith, omega arith),
        (
          (omega arith, omega arith),
          (
            (omega arith, omega arith),
            ((omega arith, omega arith), ((omega arith, omega arith), _)),
          ),
        ),
      )
      (omega arith) (omega arith)

abbrev latencies : List ℕ
latencies = 30 ∷ 10 ∷ 20 ∷ []

lowest : (select (λ u. u) (λ n. 0) latencies lowest_latency 5).0 ≡ some 10
unfolding select
lowest = refl

select-round_robin_example :
    (k : ℕ) × (k < 3) × (select_nth (λ u. u) (λ n. 0) latencies round_robin k 5 ≡ some 20)
select-round_robin_example = select-round_robin (λ u. u) (λ n. 0) latencies 5 2 refl (omega arith)

due : is_due_for_check (upstream primary) 50 ≡ true
unfolding is_due_for_check
due = refl

one_read : height_of (answer_of (number "1")) ≡ some 1
unfolding parse_hex
one_read = refl

few : 1 + length (recent 53 []) ≤ 5
unfolding recent
few = omega arith

tick-recovers_example :
    (is_healthy (tick (upstream primary) 50 53 (reply 200 3 (some (answer_of (number "1")))))
      ≡ true)
    × ((tick
          (upstream primary)
          50
          53
          (reply 200 3 (some (answer_of (number "1"))))).consecutive_failures
        ≡ 0)
    × ((tick (upstream primary) 50 53 (reply 200 3 (some (answer_of (number "1"))))).block_height
        ≡ 1)
unfolding recent
tick-recovers_example =
    tick-recovers (upstream primary) 50 53 200 3 1 (answer_of (number "1")) due refl one_read few

abbrev tracking : String → Tracking Store
tracking hash = record {
  cache = empty;
  last_block_number = 16;
  last_block_hash = hash;
  latest_block_number = 16;
  ws_connected = false;
}

abbrev block : String → Value
block hash = object (field "number" (string "0x10") (field "hash" (string hash) end))

see_block-reorg_iff_example :
    (any is_reorg
        (see_block memory codec 1
          (upstream primary)
          5
          (λ n. reply 200 3 none)
          (tracking "0xa")
          (block "0xb")).2
      ≡ true)
    ↔ ((block_height (block "0xb") ≡ 16)
        × (0 < 16)
        × (str_eq "0xb" "" ≡ false)
        × (str_eq "0xb" "0xa" ≡ false))
see_block-reorg_iff_example =
    see_block-reorg_iff memory codec 1 (upstream primary) 5 (λ n. reply 200 3 none) (tracking "0xa")
      (block "0xb")

abbrev tracker : Tracker Store
tracker = record { upstreams = upstream primary ∷ []; counter = 0; tracking = tracking "0xa" }

abbrev block_poll : String → Poll
block_poll height = record {
  acquired = 100;
  answered = 200;
  gen_range = λ n. 0;
  block_reply = λ i. reply 200 3 (
      some (record {
        jsonrpc = "2.0";
        id = number "1";
        result = some (object (field "number" (string height) (field "hash" (string "0xb") end)));
        fault = none;
      }));
  logs_reply = λ i n. reply 200 3 none;
}

abbrev of_client : ℕ → SubscriptionType → ClientSubscription
of_client tx sub_type = record {
  subscription_id = "0x1";
  sub_type = sub_type;
  log_filter = none;
  tx = tx;
}

abbrev announced : List BlockEvent
announced = (run memory codec 1 round_robin (block_poll "0x11" ∷ block_poll "0x12" ∷ []) tracker).1

run-headers_example :
    (told 7 (
        Dispatcher.run
          (λ s. s)
          (λ tx. true)
          1
          (map received announced)
          (("a", of_client 3 new_heads) ∷ ("b", of_client 7 new_heads) ∷ []))
      ≡ map (λ header. (7, notification "0x1" header)) (headers announced))
    × Ascending 16 (heights announced)
run-headers_example =
    run-headers memory codec 1 round_robin (λ s. s) (λ tx. true) "b" (of_client 7 new_heads)
      (("a", of_client 3 new_heads) ∷ []) [] (block_poll "0x11" ∷ block_poll "0x12" ∷ []) tracker
      refl refl (refl, tt) tt

forward_notifications-Ascending_example :
    Ascending 0
      (heights (forward_notifications codec 1 "0x1" (text "a" ∷ ping ∷ close ∷ []) 0 7).events)
    × ((forward_notifications codec 1 "0x1" (text "a" ∷ ping ∷ close ∷ []) 0 7).latest_block_number
        ≡ final 7 (
            heights
              (forward_notifications codec 1 "0x1" (text "a" ∷ ping ∷ close ∷ []) 0 7).events))
forward_notifications-Ascending_example =
    forward_notifications-Ascending codec 1 "0x1" (text "a" ∷ ping ∷ close ∷ []) 0 7

-- A round in which the socket does not connect.
abbrev lost : Visit
lost = record { upstreams = upstream primary ∷ []; connects = false; sends = true; frames = [] }

lost-Fails : Fails codec 1 lost
unfolding visit connect_and_subscribe find_ws_upstream find_ws_from
lost-Fails latest e = absurd (cc)

run-backoff_example :
    get_elem? (map (λ p. p.0) (Session.run codec 1 (lost ∷ lost ∷ lost ∷ []) min_backoff 7)) 2
    ≡ some 4000000000
run-backoff_example =
    run-backoff codec 1 (lost ∷ lost ∷ lost ∷ []) 2 7 (lost-Fails, (lost-Fails, (lost-Fails, _)))
      (omega arith)
