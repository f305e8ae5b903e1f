-- ===== src/Server/Rpc.antt =====
-- internal/cluster/rpc/server.go and client.go: the messages over HTTP.
pub mod Http
pub mod Endpoint
pub mod Listener
pub mod Client
pub mod Delivery
