-- ===== src/Ws.antt =====
-- Clients over WebSocket: src/ws/.
pub mod Subscription
pub mod Handler
pub mod Connections
pub mod Session
