-- ===== src/Config.antt =====
-- The configuration: src/config.rs. The data are here; Duration has the texts of durations, Sections the
-- defaults of absent fields, Routes `validate` and `route_map`, Load the interpolation of environment
-- variables and `Config::load`. The YAML reader is third-party code and a parameter. A `Duration` is a
-- number of nanoseconds.
pub mod Duration
pub mod Routes
pub mod Load
pub mod Sections
use poolbeg.Prelude.{ℕ, Bool, List, Option, String}

pub data Finality : Type 0 where
  finalized unfinalized any : Finality

-- `duration d` is a TTL of `d` nanoseconds.
pub data TtlValue : Type 0 where
  never forever : TtlValue
  duration : ℕ → TtlValue

pub record CachePolicy : Type 0 where
  pub methods : List String
  pub finality : Finality
  pub ttl : TtlValue

pub data UpstreamRole : Type 0 where
  primary secondary fallback : UpstreamRole

pub data UpstreamStrategy : Type 0 where
  round_robin random lowest_latency : UpstreamStrategy

pub record UpstreamConfig : Type 0 where
  pub id : String
  pub role : UpstreamRole
  pub http_url : String
  pub ws_url : Option String
  pub max_rps : ℕ

pub record ChainConfig : Type 0 where
  pub name : String
  pub chain_id : ℕ
  pub expected_block_time : ℕ
  pub finality_depth : ℕ
  pub route : String
  pub auto_public : Bool
  pub strategy : UpstreamStrategy
  pub disabled_retry_interval : ℕ
  pub upstreams : List UpstreamConfig

pub record AuthConfig : Type 0 where
  pub enabled : Bool
  pub api_keys : List String

pub record MetricsConfig : Type 0 where
  pub address : String
  pub port : ℕ
  pub path : String

pub record RedisConfig : Type 0 where
  pub url : String
  pub pool_size : ℕ
  pub db : ℕ

pub record CacheConfig : Type 0 where
  pub redis : RedisConfig
  pub policies : List CachePolicy

pub record ServerConfig : Type 0 where
  pub address : String
  pub port : ℕ
  pub metrics : MetricsConfig
  pub auth : AuthConfig
  pub max_rps : ℕ
  pub max_body_size : ℕ
  pub max_batch_size : ℕ
  pub max_ws_connections : ℕ
  pub blocked_methods : List String
  pub debug_client : Bool
  pub debug_upstream : Bool

pub record Config : Type 0 where
  pub server : ServerConfig
  pub cache : CacheConfig
  pub chains : List ChainConfig
