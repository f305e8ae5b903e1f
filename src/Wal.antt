-- ===== src/Wal.antt =====
-- internal/storage/wal: the write-ahead log's records, their reader and their writer.
pub mod Words
pub mod Crc
pub mod Codec
pub mod Reader
pub mod Writer
