-- ===== src/Server/Kv.antt =====
-- internal/server/handlers/kv.go: the HTTP handlers of keys.
pub mod State
pub mod Write
pub mod Read
pub mod Serve
pub mod Covered
pub mod RoundTrip
pub mod Failover
pub mod Majority
pub mod Path
