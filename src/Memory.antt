-- ===== src/Memory.antt =====
-- internal/storage/memory: the in-memory engine with its log and checkpoints.
pub mod Engine
pub mod Files
pub mod Lifecycle
pub mod Frame
pub mod Recovery
pub mod Replay
pub mod Scan
pub mod Ops
pub mod Contract
pub mod Laws
pub mod Kept
