-- ===== src/Upstream.antt =====
-- Upstream nodes: src/upstream/.
pub mod Client
pub mod Strategy
pub mod HealthCheck
pub mod Manager
pub mod Tracker
pub mod Subscriber
pub mod Concurrent
pub mod PublicEndpoints
