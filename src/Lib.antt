-- ===== src/Lib.antt =====
-- poolbeg: a JSON-RPC proxy for Ethereum-style chains. A client's request is answered from memory, from
-- a cache in Redis or by one of several upstream nodes, with failover; a tracker polls the chain's head
-- and invalidates the cache when the head is replaced.
--
-- The parts, as files here and as files of the repository:
--   * Value, Rpc.Codec: JSON values (`serde_json::Value`), and the JSON reader, printer and hash, which are
--     third-party code and stand as parameters.
--   * Config, with Duration, Routes, Load and Sections: src/config.rs. Configuration data, texts of
--     durations and TTLs, `validate`, `route_map`, the interpolation of environment variables,
--     `Config::load`, and the defaults of absent fields.
--   * Rpc.Types: src/rpc/types.rs. Requests, responses, block tags and their finality.
--   * Rpc.Coalescer: src/rpc/coalescer.rs. `coalesce_or_execute` as one task sees it, and
--     in Tasks as steps of many tasks that share the map.
--   * Rpc.Batch, Rpc.Handler: src/rpc/handler.rs. `process_batch` with its three passes,
--     `process_single_request`, `forward_to_upstream` and `handle_rpc`.
--   * Cache: src/cache/. Policy is policy.rs, Keys is keys.rs, Client is redis.rs, Layer is mod.rs. The
--     Redis server is the parameter of Cache.Redis, with its documented laws.
--   * Middleware, with RateLimit and Auth: src/middleware/.
--   * Upstream: src/upstream/. Client, Strategy, HealthCheck (health.rs), Manager, Tracker,
--     Subscriber (ws_subscriber.rs) and PublicEndpoints;
--     Concurrent has the tracker and the subscriber as two tasks that run at once.
--   * Ws: src/ws/. Subscription (the map of subscriptions, filters, dispatch), Handler (messages),
--     Session (one whole connection, and the loop of the chain's dispatcher) and Connections (the count of
--     connections, as steps of many tasks).
--   * Server: src/server.rs and src/main.rs. The start, the routes and the layers around them; axum and
--     tower-http are the parameter `Web`. Running is the server at work: bodies and rounds of trackers on
--     all chains, one after the other.
--   * Prelude: numbers, lists, maps and texts that the parts share. Tests: sample data and runs.
--
-- State is passed explicitly: an `Arc` or an atomic is a field of a record that an operation takes and
-- returns. Times, network outcomes and random numbers are inputs. `none` stands for an error that the
-- source ignores or passes on, and as the response of a handler for a panic: that of `unwrap` on a batch,
-- and that of `truncate_json` in the logs that `debug_client` and `debug_upstream` switch on. An `Arc` of an
-- upstream is its index.
-- Numbers are natural numbers; products of 64-bit numbers wrap as in a release build. Durations are
-- nanoseconds. The token bucket counts billionths of a token exactly, without the rounding of floating
-- point numbers; what is stated of it is about calls at one time, between which nothing is rounded. A
-- number is printed with 64 rounds of division, which is enough below 2 ^ 64. Loops that run for ever
-- are functions of the list of what each round meets.
--
-- Not modelled: metrics, logging where it cannot fail, sockets, the tasks that only pass messages on, and
-- the command line. What other tasks do inside a request of Rpc.Handler is an input there;
-- Rpc.Coalescer.Tasks, Ws.Connections and Upstream.Concurrent have the interleavings.
mod Prelude
pub mod Value
pub mod Config
pub mod Cache
pub mod Middleware
pub mod Upstream
pub mod Rpc
pub mod Ws
pub mod Server
mod Tests
