-- ===== src/Config/Sections.antt =====
-- From the sections of a configuration file to the configuration: the fields that may be absent, their
-- defaults and the texts of durations in src/config.rs. A section is what the YAML reader finds, `none`
-- where a field is absent; a field that must be there and is not is an error of the reader.
pub mod Written
use poolbeg.Prelude.{
  ℕ, ◌*◌, Bool, false, List, [], ◌∷◌, ◌>>=◌, Option, none, some, String, unwrap_or, map,
}
use poolbeg.Config.{
  Config, ServerConfig, AuthConfig, MetricsConfig, CacheConfig, RedisConfig, ChainConfig,
  UpstreamConfig, CachePolicy, Finality, any, UpstreamRole, primary, UpstreamStrategy, round_robin,
}
use poolbeg.Config.Duration.{from_secs, parse_duration_string, deserialize_ttl}

abbrev pub default_address : String
default_address = "0.0.0.0"

abbrev pub default_port : ℕ
default_port = 8080

abbrev pub default_metrics_port : ℕ
default_metrics_port = 9090

abbrev pub default_metrics_path : String
default_metrics_path = "/metrics"

abbrev pub default_redis_url : String
default_redis_url = "redis://localhost:6379"

abbrev pub default_pool_size : ℕ
default_pool_size = 16

abbrev pub default_finality : Finality
default_finality = any

abbrev pub default_finality_depth : ℕ
default_finality_depth = 64

abbrev pub default_role : UpstreamRole
default_role = primary

abbrev pub default_disabled_retry_interval : ℕ
default_disabled_retry_interval = from_secs (24 * 3600)

abbrev pub default_max_rps : ℕ
default_max_rps = 100

abbrev pub default_server_max_rps : ℕ
default_server_max_rps = 1000

abbrev pub default_max_body_size : ℕ
default_max_body_size = 1048576

abbrev pub default_max_batch_size : ℕ
default_max_batch_size = 100

abbrev pub default_max_ws_connections : ℕ
default_max_ws_connections = 1024

abbrev pub default_blocked_methods : List String
default_blocked_methods = "admin_" ∷ "debug_" ∷ "personal_" ∷ "miner_" ∷ "txpool_" ∷ []

pub record AuthSection : Type 0 where
  pub enabled : Option Bool
  pub api_keys : Option (List String)

pub record MetricsSection : Type 0 where
  pub address : Option String
  pub port : Option ℕ
  pub path : Option String

pub record RedisSection : Type 0 where
  pub url : Option String
  pub pool_size : Option ℕ
  pub db : Option ℕ

pub record ServerSection : Type 0 where
  pub address : Option String
  pub port : Option ℕ
  pub metrics : Option MetricsSection
  pub auth : Option AuthSection
  pub max_rps : Option ℕ
  pub max_body_size : Option ℕ
  pub max_batch_size : Option ℕ
  pub max_ws_connections : Option ℕ
  pub blocked_methods : Option (List String)
  pub debug_client : Option Bool
  pub debug_upstream : Option Bool

pub record PolicySection : Type 0 where
  pub methods : List String
  pub finality : Option Finality
  pub ttl : String

pub record UpstreamSection : Type 0 where
  pub id : String
  pub role : Option UpstreamRole
  pub http_url : String
  pub ws_url : Option String
  pub max_rps : Option ℕ

pub record ChainSection : Type 0 where
  pub name : String
  pub chain_id : ℕ
  pub expected_block_time : String
  pub finality_depth : Option ℕ
  pub route : String
  pub auto_public : Option Bool
  pub strategy : Option UpstreamStrategy
  pub disabled_retry_interval : Option String
  pub upstreams : Option (List UpstreamSection)

pub record CacheSection : Type 0 where
  pub redis : RedisSection
  pub policies : Option (List PolicySection)

pub record ConfigSection : Type 0 where
  pub server : ServerSection
  pub cache : CacheSection
  pub chains : List ChainSection

-- All of a list, or the first error.
unfoldable pub each {ℓ κ} : {A : Type ℓ} {B : Type κ} → (A → Option B) → List A → Option (List B)
each f [] = some []
each f (x ∷ xs) = do y ← f x; ys ← each f xs; some (y ∷ ys)

unfoldable pub read_auth : Option AuthSection → AuthConfig
read_auth none = record { enabled = false; api_keys = [] }
read_auth (some a) = record {
  enabled = unwrap_or a.enabled false;
  api_keys = unwrap_or a.api_keys [];
}

-- `MetricsConfig::default` where the section is absent.
unfoldable pub read_metrics : Option MetricsSection → MetricsConfig
read_metrics none = record {
  address = default_address;
  port = default_metrics_port;
  path = default_metrics_path;
}
read_metrics (some m) = record {
  address = unwrap_or m.address default_address;
  port = unwrap_or m.port default_metrics_port;
  path = unwrap_or m.path default_metrics_path;
}

unfoldable pub read_redis : RedisSection → RedisConfig
read_redis r = record {
  url = unwrap_or r.url default_redis_url;
  pool_size = unwrap_or r.pool_size default_pool_size;
  db = unwrap_or r.db 0;
}

unfoldable pub read_server : ServerSection → ServerConfig
read_server s = record {
  address = unwrap_or s.address default_address;
  port = unwrap_or s.port default_port;
  metrics = read_metrics s.metrics;
  auth = read_auth s.auth;
  max_rps = unwrap_or s.max_rps default_server_max_rps;
  max_body_size = unwrap_or s.max_body_size default_max_body_size;
  max_batch_size = unwrap_or s.max_batch_size default_max_batch_size;
  max_ws_connections = unwrap_or s.max_ws_connections default_max_ws_connections;
  blocked_methods = unwrap_or s.blocked_methods default_blocked_methods;
  debug_client = unwrap_or s.debug_client false;
  debug_upstream = unwrap_or s.debug_upstream false;
}

unfoldable pub read_policy : PolicySection → Option CachePolicy
read_policy p = do
  ttl ← deserialize_ttl p.ttl
  some (record { methods = p.methods; finality = unwrap_or p.finality default_finality; ttl = ttl })

unfoldable pub read_upstream : UpstreamSection → UpstreamConfig
read_upstream u = record {
  id = u.id;
  role = unwrap_or u.role default_role;
  http_url = u.http_url;
  ws_url = u.ws_url;
  max_rps = unwrap_or u.max_rps default_max_rps;
}

-- `deserialize_duration`, and the default of a field that has one.
unfoldable pub read_interval : Option String → Option ℕ
read_interval none = some default_disabled_retry_interval
read_interval (some text) = parse_duration_string text

unfoldable pub read_chain : ChainSection → Option ChainConfig
read_chain c = do
  block_time ← parse_duration_string c.expected_block_time
  interval ← read_interval c.disabled_retry_interval
  some (record {
    name = c.name;
    chain_id = c.chain_id;
    expected_block_time = block_time;
    finality_depth = unwrap_or c.finality_depth default_finality_depth;
    route = c.route;
    auto_public = unwrap_or c.auto_public false;
    strategy = unwrap_or c.strategy round_robin;
    disabled_retry_interval = interval;
    upstreams = map read_upstream (unwrap_or c.upstreams []);
  })

unfoldable pub read_cache : CacheSection → Option CacheConfig
read_cache c = do
  policies ← each read_policy (unwrap_or c.policies [])
  some (record { redis = read_redis c.redis; policies = policies })

unfoldable pub read_config : ConfigSection → Option Config
read_config s = do
  cache ← read_cache s.cache
  chains ← each read_chain s.chains
  some (record { server = read_server s.server; cache = cache; chains = chains })

-- Reading the text of a file, where `yaml` is the reader.
unfoldable pub from_str : (String → Option ConfigSection) → String → Option Config
from_str yaml text = yaml text >>= read_config
