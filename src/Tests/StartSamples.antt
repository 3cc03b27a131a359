-- ===== src/Tests/StartSamples.antt =====
-- A sample configuration, a router, and the server that starts from them.
use poolbeg.Prelude.{
  ◌≡◌, refl, List, [], ◌∷◌, ◌++◌, true, false, Option, none, some, String, str_eq, if◌then◌else◌,
  arith, Bool-cases, inl, inr, ap,
}
use poolbeg.Config.{Config, primary, round_robin}
use poolbeg.Config.Sections.{
  ConfigSection, default_address, default_port, default_metrics_port, default_metrics_path,
  default_pool_size, default_max_body_size, default_max_batch_size, default_blocked_methods,
}
use poolbeg.Middleware.RateLimit
use poolbeg.Middleware.RateLimit.{RateLimiter, try_acquire, client_rate_limit, one_token}
use poolbeg.Upstream.Client
use poolbeg.Upstream.Manager.{Manager}
use poolbeg.Upstream.Manager.Background.{health_check_loop, upstream_status_loop, block_tracker}
use poolbeg.Server.{
  Web, Laws, Startup, Server, Incoming, Route, Target, post, route_table, Serving, metrics_table,
}
use poolbeg.Tests.Samples.{chain}

abbrev pub env : String → Option String
env name = if str_eq name "A" then some "x" else none

-- A router that looks for the first route with the path of the request.
unfoldable pub search : String → List Route → Option Target
search p [] = none
search p (r ∷ rs) = let rest = search p rs in if str_eq r.path p then some r.target else rest

abbrev pub web : Web
web = record {
  router = λ table. some (λ req. search req.head.path table);
  too_large = λ limit req. false;
  preflight = λ req. false;
}

search-found :
    (p : String) (table : List Route) (t : Target)
    → search p table ≡ some t
    → (before after : List Route) × (route : Route) × (table ≡ before ++ (route ∷ after))
      × (route.target ≡ t)
      × (str_eq route.path p ≡ true)
unfolding search
search-found p [] t e = absurd (cc)
search-found p (r ∷ rs) t e = elim (Bool-cases (str_eq r.path p)) [
  | inl here ↦ ([], rs, r, refl, ground arith, here)
  | inr other ↦
      let later : search p rs ≡ some t = ground arith in
      let (before, after, route, split, target, fit) = search-found p rs t later in
      (r ∷ before, after, route, ap (λ l. r ∷ l) split, target, fit)
]

pub router-found :
    (table : List Route) (f : Incoming → Option Target) (req : Incoming) (t : Target)
    → web.router table ≡ some f
    → f req ≡ some t
    → (before after : List Route) × (route : Route) × (table ≡ before ++ (route ∷ after))
      × (route.target ≡ t)
      × (str_eq route.path req.head.path ≡ true)
router-found table f req t e h =
    let there : search req.head.path table ≡ some t = ground arith in
    search-found req.head.path table t there

abbrev pub web-Laws : Laws web
web-Laws = record { fits = str_eq; routed = router-found }

abbrev pub config : Config
config = record {
  server = record {
    address = "127.0.0.1";
    port = default_port;
    metrics = record {
      address = default_address;
      port = default_metrics_port;
      path = default_metrics_path;
    };
    auth = record { enabled = true; api_keys = "secret" ∷ [] };
    max_rps = 100;
    max_body_size = default_max_body_size;
    max_batch_size = default_max_batch_size;
    max_ws_connections = 10;
    blocked_methods = default_blocked_methods;
    debug_client = false;
    debug_upstream = false;
  };
  cache = record {
    redis = record { url = "redis://cache"; pool_size = default_pool_size; db = 0 };
    policies = [];
  };
  chains = chain ∷ [];
}

-- The sections that the configuration is read from.
abbrev pub section : ConfigSection
section = record {
  server = record {
    address = some "127.0.0.1";
    port = none;
    metrics = none;
    auth = some (record { enabled = some true; api_keys = some ("secret" ∷ []) });
    max_rps = some 100;
    max_body_size = none;
    max_batch_size = none;
    max_ws_connections = some 10;
    blocked_methods = none;
    debug_client = none;
    debug_upstream = none;
  };
  cache = record {
    redis = record { url = some "redis://cache"; pool_size = none; db = none };
    policies = none;
  };
  chains =
      record {
        name = "ethereum";
        chain_id = 1;
        expected_block_time = "12s";
        finality_depth = none;
        route = "/eth";
        auto_public = none;
        strategy = none;
        disabled_retry_interval = some "10s";
        upstreams = some (
            record {
              id = "node";
              role = none;
              http_url = "http://node";
              ws_url = none;
              max_rps = some 5;
            }
            ∷ []);
      }
      ∷ [];
}

abbrev pub yaml : String → Option ConfigSection
yaml text = if str_eq text "x" then some section else none

abbrev pub from_yaml : String → Option Config
from_yaml text = if str_eq text "x" then some config else none

abbrev pub startup : Startup
startup = record {
  metrics_ready = true;
  redis_connects = true;
  client_builds = λ u. true;
  binds = λ a. true;
  now = 5;
}

abbrev pub request : String → Incoming
request key = record {
  method = post;
  head = record { path = "/eth"; x_api_key = some key; query = none };
  body = "{}";
}

abbrev pub managers : List Manager
managers =
    record {
      upstreams =
          Client.new
            (record {
              id = "node";
              role = primary;
              http_url = "http://node";
              ws_url = none;
              max_rps = 5;
            })
            10000000000 5
          ∷ [];
      strategy = round_robin;
      counter = 0;
    }
    ∷ []

abbrev pub server : Server
server = record {
  config = config;
  chain_managers = managers;
  ws_connection_count = 0;
  tasks = health_check_loop 0 ∷ upstream_status_loop 0 ∷ block_tracker ∷ [];
  rate_limiter = RateLimit.new 100 5;
  valid_keys = some ("secret" ∷ []);
  routes = λ req. search req.head.path (route_table (chain ∷ []));
}

abbrev pub serving : Serving
serving = record {
  server = server;
  metrics_routes = some (λ req. search req.head.path (metrics_table config));
}
