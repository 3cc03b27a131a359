-- ===== src/Middleware.antt =====
-- The HTTP middleware: src/middleware/.
pub mod RateLimit
pub mod Auth
