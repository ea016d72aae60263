-- ===== src/Server.antt =====
-- The relay's HTTP side, internal/server.
pub mod ClientIp
