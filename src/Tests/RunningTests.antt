-- ===== src/Tests/RunningTests.antt =====
-- A server that runs, on sample bodies and rounds.
use poolbeg.Prelude.{
  ℕ, ◌≡◌, ◌≢◌, refl, List, [], ◌∷◌, false, none, some, arith, get_elem?, to_hex, parse_hex, zero,
  suc,
}
use poolbeg.Value.{string, number, object, field, end}
use poolbeg.Config.{Config, ChainConfig}
use poolbeg.Rpc.Types.{JsonRpcRequest, single, single as one, success, is_method_blocked}
use poolbeg.Rpc.Codec.{HashLength}
use poolbeg.Rpc.Handler.{World, parse}
use poolbeg.Upstream.Client.{reply, send_request, try_acquire_rate_limit}
use poolbeg.Middleware.RateLimit.{try_acquire}
use poolbeg.Upstream.Strategy.{select}
use poolbeg.Upstream.Manager.{tier_from}
use poolbeg.Upstream.Tracker.{
  Poll, poll, select_best_upstream, select_from, fetch_latest_block, see_block, block_height,
  accept, fetch_block_logs,
}
use poolbeg.Upstream.Tracker.Heads.{heights}
use poolbeg.Cache.Layer.Chains.{Untouched}
use poolbeg.Server.Running.{Running, Step, body, round, answer_body, follow, steps}
use poolbeg.Server.Running.Chains.{AllOwned, steps-Untouched}
use poolbeg.Server.Running.Tracked.{follow-answer_body}
use poolbeg.Tests.Memory.{Store, in_set, memory, memory-Laws, memory-Answers}
use poolbeg.Tests.Samples.{codec, world, setup, chain, manager, request, empty}

abbrev asked : JsonRpcRequest
asked = request "eth_blockNumber" (string "") (number "3")

-- Every body is a request for the block number.
abbrev worlds : ℕ → World
worlds i = record world { read_one = λ t. some asked }

abbrev config : Config
config = record {
  server = record setup.server { debug_client = false };
  cache = record {
    redis = record { url = "redis://cache"; pool_size = 16; db = 0 };
    policies = setup.policies;
  };
  chains = chain ∷ [];
}

abbrev running : Running Store
running = record {
  cache = empty;
  in_flight = [];
  turn = 0;
  chains =
      record {
        manager = manager;
        following = record {
          counter = 0;
          last_block_number = 16;
          last_block_hash = "0xa";
          latest_block_number = 16;
          ws_connected = false;
        };
      }
      ∷ [];
}

abbrev next_block : Poll
next_block = record {
  acquired = 100;
  answered = 200;
  gen_range = λ n. 0;
  block_reply = λ i. reply 200 3 (
      some (record {
        jsonrpc = "2.0";
        id = number "1";
        result = some (object (field "number" (string "0x11") (field "hash" (string "0xb") end)));
        fault = none;
      }));
  logs_reply = λ i n. reply 200 3 none;
}

abbrev asks : List Step
asks = body 0 "{...}" ∷ round 1 next_block ∷ body 0 "{}" ∷ []

-- A block is cached, and a request answered.
abbrev works : List Step
works = round 0 next_block ∷ body 0 "{...}" ∷ []

announced : heights (follow memory codec worlds config running 0 next_block).1 ≡ 17 ∷ []
unfolding follow heights poll select_best_upstream select_from tier_from select
    try_acquire_rate_limit try_acquire fetch_latest_block send_request see_block block_height
    parse_hex accept fetch_block_logs
announced = refl

read : parse (worlds 0) "{}" ≡ some (single asked)
unfolding parse
read = refl

follow-answer_body_example :
    (answer_body memory codec worlds config
      (steps memory codec worlds config
        (follow memory codec worlds config running 0 next_block).0
        asks)
      0
      "{}").1
    ≡ some (one (success (number "3") (string (to_hex 17))))
unfolding is_method_blocked
follow-answer_body_example =
    follow-answer_body memory codec worlds config running 0 next_block 17 asks "{}" chain asked
      announced (tt, ((λ e. absurd (omega (arith, e))), (tt, tt))) refl read refl refl refl

sixty_four_long : HashLength codec
sixty_four_long t = refl

chain_small :
    (idx : ℕ) (c : ChainConfig) → get_elem? (chain ∷ []) idx ≡ some c → ◌≡◌ {A = ℕ} c.chain_id 1
chain_small zero c e = ground (arith, e)
chain_small (suc idx) c e = absurd (cc)

steps-Untouched_example :
    AllOwned memory (steps memory codec worlds config running works).cache
    × Untouched memory 5 empty (steps memory codec worlds config running works).cache
unfolding in_set
steps-Untouched_example =
    steps-Untouched memory memory-Laws memory-Answers codec sixty_four_long worlds config
      (λ idx c e. omega (arith, chain_small idx c e)) works running 5 (omega arith)
      (λ d h m there. absurd (cc)) (elsewhere 0, (elsewhere 0, tt))
  where
    elsewhere : (idx : ℕ) (c : ChainConfig) → get_elem? (chain ∷ []) idx ≡ some c → c.chain_id ≢ 5
    elsewhere idx c e same = omega (arith, chain_small idx c e, same)
