-- ===== src/HashRing.antt =====
-- internal/cluster/hashring/hashring.go: the consistent hash ring.
pub mod Search
pub mod Ring
pub mod Invariant
pub mod Lookup
pub mod Owners
