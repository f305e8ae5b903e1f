-- ===== src/Config.antt =====
-- internal/config: the configuration and its validation.
pub mod Types
pub mod Paths
pub mod Validator
pub mod Loader
