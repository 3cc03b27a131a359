-- ===== src/Cache.antt =====
-- The response cache: src/cache/. `Redis` is the interface of the server, `Cache.Client` the wrapper
-- of src/cache/redis.rs, `Cache.Layer` the `CacheLayer` of src/cache/mod.rs.
pub mod Policy
pub mod Redis
pub mod Client
pub mod Keys
pub mod Layer
