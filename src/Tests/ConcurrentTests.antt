-- ===== src/Tests/ConcurrentTests.antt =====
-- The tracker and the subscriber at once, on sample blocks and frames.
use poolbeg.Prelude.{◌≡◌, refl, Bool, true, List, [], ◌∷◌, none, some, String, arith, parse_hex}
use poolbeg.Value.{Value, string, object, field, end}
use poolbeg.Rpc.Codec.{Codec}
use poolbeg.Upstream.Manager.{latest_block_number}
use poolbeg.Upstream.Tracker.{block_height, Tracking}
use poolbeg.Upstream.Tracker.Heads.{heights, Ascending}
use poolbeg.Upstream.Subscriber.{text, header_in, header_height}
use poolbeg.Upstream.Concurrent.{listening, Action, polled, go_on, answered, framed, announced, run}
use poolbeg.Upstream.Concurrent.{resting}
use poolbeg.Upstream.Concurrent.Settled.{is_steady}
use poolbeg.Upstream.Concurrent.Ordered.{heights-run-Ascending}
use poolbeg.Upstream.Concurrent.Behind.{run-latest_block_number}
use poolbeg.Tests.Memory.{Store, memory}
use poolbeg.Tests.Samples.{codec, empty}

abbrev block : String → Value
block height = object (field "number" (string height) (field "hash" (string "0xb") end))

-- Every text is a notification of the head 0x14 for the subscription 0x1.
abbrev feed : Codec
feed = record codec {
  decode_value = λ t. some (
      object (
        field "method" (string "eth_subscription") (
          field "params"
            (object (field "subscription" (string "0x1") (field "result" (block "0x14") end)))
            end)));
}

abbrev tracking : Bool → Tracking Store
tracking connected = record {
  cache = empty;
  last_block_number = 16;
  last_block_hash = "0xa";
  latest_block_number = 16;
  ws_connected = connected;
}

-- The tracker polls while a subscription is up.
abbrev mixed : List Action
mixed =
    polled (block "0x11")
    ∷ go_on
    ∷ framed (text "a")
    ∷ announced
    ∷ answered none
    ∷ go_on
    ∷ framed (text "b")
    ∷ []

heights-run-Ascending_example :
    Ascending 0 (heights (run memory feed 1 (resting (tracking true) (listening "0x1" 0)) mixed).1)
unfolding is_steady
heights-run-Ascending_example =
    heights-run-Ascending memory feed 1 (resting (tracking true) (listening "0x1" 0)) mixed
      (refl, (refl, (refl, (refl, (refl, (refl, (refl, _))))))) (refl, tt)

higher_read : header_in feed "0x1" "a" ≡ some (block "0x14")
unfolding header_in
higher_read = refl

run-latest_block_number_example :
    (heights
        (run memory feed 1 (resting (tracking true) (listening "0x1" 0)) (
          polled (block "0x11")
          ∷ go_on
          ∷ framed (text "a")
          ∷ announced
          ∷ answered none
          ∷ go_on
          ∷ [])).1
      ≡ header_height (block "0x14") ∷ [])
    × (latest_block_number
          (run memory feed 1 (resting (tracking true) (listening "0x1" 0)) (
            polled (block "0x11")
            ∷ go_on
            ∷ framed (text "a")
            ∷ announced
            ∷ answered none
            ∷ go_on
            ∷ [])).0.tracking.latest_block_number
        ≡ some (block_height (block "0x11")))
unfolding block_height parse_hex
run-latest_block_number_example =
    run-latest_block_number memory feed 1 (tracking true) (block "0x11") none "0x1" 0 "a"
      (block "0x14") refl (omega arith) refl higher_read refl (omega arith) (omega arith)
