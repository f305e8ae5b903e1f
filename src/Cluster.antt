-- ===== src/Cluster.antt =====
-- internal/cluster: consistency levels, membership, gossip and hinted handoff.
pub mod Consistency
pub mod Membership
pub mod Gossip
pub mod Handoff
pub mod Manager
