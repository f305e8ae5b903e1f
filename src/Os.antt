-- ===== src/Os.antt =====
-- What the storage engine uses of Go's `os`, `time`, `path/filepath` and `encoding/gob`: files as
-- byte strings, calls that may fail, and clock readings.
pub mod Disk
