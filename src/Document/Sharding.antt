-- ===== src/Document/Sharding.antt =====
-- internal/document/sharding/sharding.go: the shard of a document id, and who owns it.
use cluster_db.Prelude.{ℕ, ◌*◌, ◌^◌, ◌%◌, bit_xor, Option, none, some, [], ◌∷◌}
use cluster_db.Prelude.Bytes.{Bytes}
use cluster_db.HashRing.Ring.{Sorter}
use cluster_db.Cluster.Membership.{Node}
use cluster_db.Cluster.Manager.{Manager, owner}

-- Write of hash/fnv's New32a, from a hash on.
unfoldable pub fnv_from : ℕ → Bytes → ℕ
fnv_from hash [] = hash
fnv_from hash (b ∷ bs) = fnv_from (bit_xor hash b * 16777619 % 2 ^ 32) bs

-- ComputeShard
unfoldable pub compute_shard : Bytes → ℕ
unfolding fnv_from
compute_shard id = fnv_from 2166136261 id

-- ShardOwner
unfoldable pub shard_owner : Sorter → Option Manager → Bytes → Option Node × Option Manager
shard_owner s none id = (none, none)
shard_owner s (some m) id = let r = owner s id m in (r.0, some r.1)
