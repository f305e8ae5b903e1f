-- ===== src/Tests.antt =====
-- The theorems at concrete inputs, and runs of the code.
mod Wal
mod Memory
mod Recovery
mod Stable
mod HashRing
mod Cluster
mod Document
mod Manager
mod Kv
mod Boot
mod Config
mod Service
mod Node
mod Scan
mod App
mod Arranged
mod Sorting
mod Documents
