-- ===== src/Server/Running.antt =====
-- A server that runs: its chains, which share the cache and the requests in flight, with the state that
-- the handlers and the trackers of a chain share (the managers of src/server.rs, and the trackers that
-- `start_tracker` of src/upstream/manager.rs starts). A step is one whole body of a client or one round of
-- a tracker. An index out of range is a panic; Started shows that the router yields none.
pub mod Chains
pub mod Tracked
pub mod Answered
use poolbeg.Prelude.{
  ℕ, ◌≢◌, List, [], ◌∷◌, Bool, false, map, Option, none, some, String, get_elem?, set,
}
use poolbeg.Config.{Config, ChainConfig}
use poolbeg.Rpc.Types.{RpcResponse}
use poolbeg.Rpc.Codec.{Codec}
use poolbeg.Rpc.Handler.{World, Setup, Service, handle_rpc}
use poolbeg.Cache.Redis.{Redis}
use poolbeg.Upstream.Manager.{Manager}
use poolbeg.Upstream.Tracker.{BlockEvent, Tracking, Poll, Tracker, poll}
use poolbeg.Server.{Server}

-- What the tracker of a chain keeps beside the upstreams and the cache.
pub record Following : Type 0 where
  pub counter : ℕ
  pub last_block_number : ℕ
  pub last_block_hash : String
  pub latest_block_number : ℕ
  pub ws_connected : Bool

pub record Chain : Type 0 where
  pub manager : Manager
  pub following : Following

pub record Running (C : Type 0) : Type 0 where
  pub cache : C
  pub in_flight : List String
  pub turn : ℕ
  pub chains : List Chain

abbrev pub service_of : {C : Type 0} → Running C → Chain → Service C
service_of s ch = record {
  cache = s.cache;
  manager = ch.manager;
  in_flight = s.in_flight;
  latest = ch.following.latest_block_number;
  turn = s.turn;
}

abbrev pub tracker_of : {C : Type 0} → Running C → Chain → Tracker C
tracker_of s ch = record {
  upstreams = ch.manager.upstreams;
  counter = ch.following.counter;
  tracking = record {
    cache = s.cache;
    last_block_number = ch.following.last_block_number;
    last_block_hash = ch.following.last_block_hash;
    latest_block_number = ch.following.latest_block_number;
    ws_connected = ch.following.ws_connected;
  };
}

-- `BlockTracker::new`, with the shared values as `ChainManager::new` makes them and the variables that
-- `run` begins with.
abbrev pub fresh : Following
fresh = record {
  counter = 0;
  last_block_number = 0;
  last_block_hash = "";
  latest_block_number = 0;
  ws_connected = false;
}

-- A server that has just started, with what is in the cache.
unfoldable pub running_of : {C : Type 0} → C → Server → Running C
running_of cache server = record {
  cache = cache;
  in_flight = [];
  turn = 0;
  chains = map (λ m. record { manager = m; following = fresh }) server.chain_managers;
}

-- A body for the chain `idx`, or a round of its tracker.
pub data Step : Type 0 where
  body : (idx : ℕ) → String → Step
  round : (idx : ℕ) → Poll → Step

-- `world i` is what the rest of the system does during the requests on the chain `i`.
module _ (r : Redis) (codec : Codec) (world : ℕ → World) (config : Config) where
  abbrev pub setup_of : ChainConfig → Setup
  setup_of chain = record {
    chain = chain;
    server = config.server;
    policies = config.cache.policies;
  }

  -- `handle_rpc` with the state of its chain; `none` is a panic.
  unfoldable pub answer_body : Running r.State → ℕ → String → Running r.State × Option RpcResponse
  answer_body s idx text = elim (get_elem? config.chains idx) [
    | none ↦ (s, none)
    | some chain ↦ elim (get_elem? s.chains idx) [
      | none ↦ (s, none)
      | some ch ↦
          let (t, resp) = handle_rpc r codec (world idx) (setup_of chain) (service_of s ch) text in
          (
            record s {
              cache = t.cache;
              in_flight = t.in_flight;
              turn = t.turn;
              chains = set s.chains idx (record ch { manager = t.manager });
            },
            resp,
          )
    ]
  ]

  -- One round of the tracker of a chain, and the events that it sends.
  unfoldable pub follow : Running r.State → ℕ → Poll → Running r.State × List BlockEvent
  follow s idx x = elim (get_elem? config.chains idx) [
    | none ↦ (s, [])
    | some chain ↦ elim (get_elem? s.chains idx) [
      | none ↦ (s, [])
      | some ch ↦
          let (t, events) = poll r codec chain.chain_id chain.strategy x (tracker_of s ch) in
          (
            record s {
              cache = t.tracking.cache;
              chains = set s.chains idx (record {
                manager = record ch.manager { upstreams = t.upstreams };
                following = record {
                  counter = t.counter;
                  last_block_number = t.tracking.last_block_number;
                  last_block_hash = t.tracking.last_block_hash;
                  latest_block_number = t.tracking.latest_block_number;
                  ws_connected = t.tracking.ws_connected;
                };
              });
            },
            events,
          )
    ]
  ]

  unfoldable pub step : Running r.State → Step → Running r.State
  step s (body idx text) = (answer_body s idx text).0
  step s (round idx x) = (follow s idx x).0

  unfoldable pub steps : Running r.State → List Step → Running r.State
  steps s [] = s
  steps s (a ∷ later) = steps (step s a) later
