-- ===== src/Document.antt =====
-- internal/document: the secondary indexes.
pub mod Index
pub mod Service
pub mod Sharding
