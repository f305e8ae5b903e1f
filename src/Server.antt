-- ===== src/Server.antt =====
-- The messages between nodes, the handlers of internal/server/bootstrap.go behind them, and the
-- HTTP handlers of keys; and the RPC server and client that carry the messages.
pub mod Messages
pub mod Node
pub mod Reply
pub mod Kv
pub mod Rpc
pub mod Boot
pub mod Documents
