-- ===== src/Server.antt =====
-- The start of the program and the way of a request through the layers: src/server.rs and src/main.rs.
-- axum and tower-http are third-party code: `Web` is what the program uses of them. Connecting to Redis,
-- the metrics recorder, the HTTP clients and binding the address either work or stop the start. Logging is
-- left out.
pub mod Guarded
pub mod Started
pub mod Throughput
pub mod Running
use poolbeg.Prelude.{
  ℕ, suc, ◌≡◌, Bool, true, false, not, ◌&&◌, List, [], ◌∷◌, ◌++◌, ◌>>=◌, Option, none, some, String,
  if◌then◌else◌, map, to_decimal,
}
use Prim.Native.String
use poolbeg.Value.{Value}
use poolbeg.Config.{Config, ChainConfig, UpstreamConfig}
use poolbeg.Config.Routes.{is_empty}
use poolbeg.Config.Sections.{ConfigSection, from_str}
use poolbeg.Config.Load.{Loaded, loaded, failed, load}
use poolbeg.Middleware.RateLimit
use poolbeg.Middleware.RateLimit.{RateLimiter, Limited, passed, refused, client_rate_limit}
use poolbeg.Middleware.Auth.{AuthRequest, auth_middleware}
use poolbeg.Upstream.Manager
use poolbeg.Upstream.Manager.{Manager}
use poolbeg.Upstream.Manager.Background.{Task, start_trackers}
use poolbeg.Upstream.PublicEndpoints.{Fetched, resolve_auto_public}

pub data HttpMethod : Type 0 where
  get post options other : HttpMethod

-- The handler of `/health`, that of the metrics, and `handle_rpc` and `handle_ws` of a chain.
pub data Target : Type 0 where
  health_check metrics : Target
  rpc ws : ℕ → Target

pub record Route : Type 0 where
  pub method : HttpMethod
  pub path : String
  pub target : Target

pub record Incoming : Type 0 where
  pub method : HttpMethod
  pub head : AuthRequest
  pub body : String

-- `router` is the chain of `Router::route`: none if it panics, on an overlap or a bad path. `too_large` is
-- `RequestBodyLimitLayer`, and `preflight` tells which requests `CorsLayer::permissive` answers itself.
pub record Web : Type 0 where
  pub router : List Route → Option (Incoming → Option Target)
  pub too_large : ℕ → Incoming → Bool
  pub preflight : Incoming → Bool

-- What the program relies on: the table is of use only for the requests whose path fits a route (a route
-- without a parameter fits its own path), and the handler is that of such a route.
pub record Laws (w : Web) : Type 0 where
  pub fits : String → String → Bool
  pub routed :
      (table : List Route) (f : Incoming → Option Target) (req : Incoming) (t : Target)
      → w.router table ≡ some f
      → f req ≡ some t
      → (before after : List Route) × (route : Route) × (table ≡ before ++ (route ∷ after))
        × (route.target ≡ t)
        × (fits route.path req.head.path ≡ true)

-- What the start meets: `binds` tells which addresses can be bound.
pub record Startup : Type 0 where
  pub metrics_ready : Bool
  pub redis_connects : Bool
  pub client_builds : UpstreamConfig → Bool
  pub binds : String → Bool
  pub now : ℕ

-- The state behind the listener, with the tasks that were started. `valid_keys` is there if the
-- authentication layer is.
pub record Server : Type 0 where
  pub config : Config
  pub chain_managers : List Manager
  pub ws_connection_count : ℕ
  pub tasks : List Task
  pub rate_limiter : RateLimiter
  pub valid_keys : Option (List String)
  pub routes : Incoming → Option Target

unfoldable pub chain_routes : ℕ → List ChainConfig → List Route
chain_routes idx [] = []
chain_routes idx (c ∷ cs) =
    record { method = post; path = c.route; target = rpc idx }
    ∷ record { method = get; path = c.route; target = ws idx }
    ∷ chain_routes (suc idx) cs

unfoldable pub route_table : List ChainConfig → List Route
route_table chains =
    record { method = get; path = "/health"; target = health_check } ∷ chain_routes 0 chains

unfoldable pub new_managers : Startup → List ChainConfig → Option (List Manager)
new_managers st [] = some []
new_managers st (c ∷ cs) = do
  cm ← Manager.new st.client_builds st.now c
  rest ← new_managers st cs
  some (cm ∷ rest)

unfoldable pub setup : Web → Startup → Config → Option Server
setup w st config =
    if st.metrics_ready && st.redis_connects
    then (do
      managers ← new_managers st config.chains
      routes ← w.router (route_table config.chains)
      some (record {
        config = config;
        chain_managers = managers;
        ws_connection_count = 0;
        tasks = start_trackers 0 managers;
        rate_limiter = RateLimit.new config.server.max_rps st.now;
        valid_keys =
            if config.server.auth.enabled && not (is_empty config.server.auth.api_keys)
            then some config.server.auth.api_keys
            else none;
        routes = routes;
      }))
    else none

-- `format!("{}:{}", address, port)`
abbrev pub socket_address : String → ℕ → String
socket_address address port = String.◌++◌ address (String.◌++◌ ":" (to_decimal port))

abbrev pub metrics_table : Config → List Route
metrics_table config =
    record { method = get; path = config.server.metrics.path; target = metrics } ∷ []

-- What serves: the application, and the routes of the metrics server, `none` if its own task has panicked
-- since its address cannot be bound.
pub record Serving : Type 0 where
  pub server : Server
  pub metrics_routes : Option (Incoming → Option Target)

unfoldable pub run : Web → Startup → Config → Option Serving
run w st config = do
  app ← setup w st config
  metrics_router ← w.router (metrics_table config)
  (if st.binds (socket_address config.server.address config.server.port)
      then some (record {
        server = app;
        metrics_routes =
            if st.binds (socket_address config.server.metrics.address config.server.metrics.port)
            then some metrics_router
            else none;
      })
      else none)

-- `main`: the configuration is loaded, completed with public endpoints, and served.
unfoldable pub launch :
    Web
    → Startup
    → (String → Option String)
    → (String → Option ConfigSection)
    → Option String
    → Fetched
    → Option Serving
launch w st env yaml raw fetched = elim (load env (from_str yaml) raw) [
  | failed e ↦ none
  | loaded config ↦ do
    chains ← resolve_auto_public fetched config.chains
    run w st (record config { chains = chains })
]

-- How a request is answered.
pub data Outcome : Type 0 where
  body_too_large no_route cors : Outcome
  rate_limited unauthorized : Value → Outcome
  handled : Target → Outcome

-- `CorsLayer` and the routes inside it.
unfoldable pub routed : Web → Server → Incoming → Outcome
routed w server req =
    if w.preflight req
    then cors
    else elim (server.routes req) [ none ↦ no_route | some t ↦ handled t ]

unfoldable pub authenticated : Web → Server → Incoming → Outcome
authenticated w server req = elim server.valid_keys [
  | none ↦ routed w server req
  | some keys ↦ elim (auth_middleware keys req.head) [
    | some body ↦ unauthorized body
    | none ↦ routed w server req
  ]
]

-- One request at the time `now`, from the outermost layer in.
unfoldable pub respond : Web → (String → Option Value) → Server → ℕ → Incoming → Server × Outcome
respond w from_slice server now req =
    let (limiter, verdict) =
      client_rate_limit from_slice req.head.path req.body server.rate_limiter now in
    if w.too_large server.config.server.max_body_size req then (server, body_too_large) else (
      record server { rate_limiter = limiter },
      elim verdict [ passed ↦ authenticated w server req | refused body ↦ rate_limited body ],
    )
