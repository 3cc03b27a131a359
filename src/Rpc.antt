-- ===== src/Rpc.antt =====
-- The JSON-RPC front end: src/rpc/.
pub mod Types
pub mod Codec
pub mod Coalescer
pub mod Batch
pub mod Handler
