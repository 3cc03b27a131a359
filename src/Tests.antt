-- ===== src/Tests.antt =====
-- Concrete inputs: a Redis server in memory, a codec, and the theorems at inputs of the kind that the
-- program's own tests use.
mod Memory
mod Samples
mod Exact
mod RpcTests
mod SharingTests
mod UpstreamTests
mod ConcurrentTests
mod CacheTests
mod ConfigTests
mod WsTests
mod FrontTests
mod StartSamples
mod PanicTests
mod StartTests
mod RunningTests
