-- ===== src/Storage.antt =====
-- internal/storage: types.go and errors.go, and the instants of Go's time package.
pub mod Time
pub mod Types
pub mod Manager
