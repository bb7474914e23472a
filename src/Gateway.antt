-- ===== src/Gateway.antt =====
-- gateway/: the edge of the system.
pub mod RateLimit
pub mod WsGuard
