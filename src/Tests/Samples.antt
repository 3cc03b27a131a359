-- ===== src/Tests/Samples.antt =====
-- Sample data for the tests.
use poolbeg.Prelude.{true, false, List, [], ◌∷◌, none, some, String, if◌then◌else◌, ◌==◌, str_eq}
use poolbeg.Value.{Value, null, string, number, array, cons, nil}
use poolbeg.Config.{
  ChainConfig, primary, fallback, UpstreamRole, round_robin, unfinalized, duration,
}
use poolbeg.Rpc.Types.{JsonRpcRequest, JsonRpcResponse}
use poolbeg.Rpc.Codec.{Codec}
use poolbeg.Rpc.Handler.{World, Setup, Service}
use poolbeg.Upstream.Client.{UpstreamClient, unreachable, reply}
use poolbeg.Upstream.Manager.{Manager, Exchange}
use poolbeg.Tests.Memory.{Store}

abbrev pub request : String → Value → Value → JsonRpcRequest
request method params id = record { jsonrpc = "2.0"; method = method; params = params; id = id }

abbrev pub balance : String → Value → JsonRpcRequest
balance tag id = request "eth_getBalance" (array (cons (string "0xaa") (cons (string tag) nil))) id

abbrev pub answer_of : Value → JsonRpcResponse
answer_of id = record { jsonrpc = "2.0"; id = id; result = some (string "0x1"); fault = none }

abbrev pub codec : Codec
codec = record {
  encode_value = λ v. "value";
  decode_value = λ t. some null;
  encode_response = λ resp. some "response";
  decode_response = λ t. if str_eq t "response" then some (answer_of (number "7")) else none;
  request_of_value = λ v. none;
  value_of_response = λ resp. null;
  hash_hex = λ t. "0000000000000000000000000000000000000000000000000000000000000000";
}

abbrev pub upstream : UpstreamRole → UpstreamClient
upstream role = record {
  id = "node";
  role = role;
  ws_url = some "ws://node";
  healthy = true;
  disabled = false;
  consecutive_failures = 0;
  next_check_at = 0;
  disabled_retry_interval = 10000000000;
  block_height = 0;
  latency_us = 500;
  rate_limiter = record {
    tokens = 5000000000;
    max_tokens = 5000000000;
    refill_rate = 5;
    last_refill = 0;
  };
  http_error_times = [];
}

abbrev pub manager : Manager
manager = record {
  upstreams = upstream primary ∷ upstream fallback ∷ [];
  strategy = round_robin;
  counter = 0;
}

-- The first upstream cannot be reached, the others answer.
abbrev pub exchange : Exchange
exchange = record {
  acquired = λ i. 1000;
  answered = λ i. 2000;
  net = λ i. if i == 0 then unreachable else reply 200 800 (some (answer_of (number "9")));
  gen_range = λ n. 0;
  log_panics = λ resp. false;
}

abbrev pub chain : ChainConfig
chain = record {
  name = "ethereum";
  chain_id = 1;
  expected_block_time = 12000000000;
  finality_depth = 64;
  route = "/eth";
  auto_public = false;
  strategy = round_robin;
  disabled_retry_interval = 10000000000;
  upstreams =
      record { id = "node"; role = primary; http_url = "http://node"; ws_url = none; max_rps = 5 }
      ∷ [];
}

abbrev pub setup : Setup
setup = record {
  chain = chain;
  server = record {
    address = "0.0.0.0";
    port = 8080;
    metrics = record { address = "0.0.0.0"; port = 9090; path = "/metrics" };
    auth = record { enabled = false; api_keys = [] };
    max_rps = 100;
    max_body_size = 1000;
    max_batch_size = 10;
    max_ws_connections = 10;
    blocked_methods = "debug_" ∷ [];
    debug_client = true;
    debug_upstream = false;
  };
  policies = record { methods = "*" ∷ []; finality = unfinalized; ttl = duration 5000000000 } ∷ [];
}

-- Two requests that differ in their id only, and one that is blocked.
abbrev pub three : List JsonRpcRequest
three =
    balance "0x5" (number "1")
    ∷ balance "0x5" (string "b")
    ∷ request "debug_trace" null (number "3")
    ∷ []

abbrev pub world : World
world = record {
  exchange = λ turn req. exchange;
  received = λ turn. some "response";
  read_one = λ body. some (balance "latest" (number "1"));
  read_many = λ body. some three;
}

abbrev pub empty : Store
empty = record { texts = []; pairs = [] }

abbrev pub service : Service Store
service = record { cache = empty; manager = manager; in_flight = []; latest = 1000; turn = 0 }
