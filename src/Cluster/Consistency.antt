-- ===== src/Cluster/Consistency.antt =====
-- internal/cluster/consistency: levels, and the counters of quorum operations.
use cluster_db.Prelude.{ℕ, ◌+◌, ◌/◌, ◌%◌, ◌^◌, ◌≤◌, ◌<◌, arith}
use cluster_db.Prelude.{ltb, if◌then◌else◌}

-- ConsistencyLevel: any other int is `unknown`.
pub data ConsistencyLevel : Type 0 where
  one quorum all unknown : ConsistencyLevel

abbrev pub default_read_consistency : ConsistencyLevel
default_read_consistency = one

abbrev pub default_write_consistency : ConsistencyLevel
default_write_consistency = quorum

abbrev acks_of : ConsistencyLevel → ℕ → ℕ
acks_of one n = 1
acks_of quorum n = n / 2 + 1
acks_of all n = n
acks_of unknown n = 1

-- RequiredAcks; a replication factor below 1 counts as 1.
unfoldable pub required_acks : ConsistencyLevel → ℕ → ℕ
required_acks c factor = acks_of c (if ltb factor 1 then 1 else factor)

-- The replicas that a factor stands for.
abbrev pub replicas : ℕ → ℕ
replicas factor = if ltb factor 1 then 1 else factor

-- Every level asks for one replica at least and for no more than there are, and a stronger level
-- asks for no fewer: ONE, then QUORUM, then ALL.
pub required_acks_bounds :
    (c : ConsistencyLevel) (factor : ℕ)
    → (1 ≤ required_acks c factor)
      × (required_acks c factor ≤ replicas factor)
      × (required_acks one factor ≤ required_acks quorum factor)
      × (required_acks quorum factor ≤ required_acks all factor)
unfolding required_acks
required_acks_bounds c factor = ground arith

-- A read and a write that between them use QUORUM twice, or ALL once, meet in a replica: the numbers
-- of replicas that they ask for add up to more than there are. With ONE on the one side and QUORUM
-- on the other that holds for factors of at most 2 only.
pub required_acks_overlap :
    (c : ConsistencyLevel) (factor : ℕ)
    → (replicas factor < required_acks quorum factor + required_acks quorum factor)
      × (replicas factor < required_acks all factor + required_acks c factor)
      × (replicas factor < required_acks one factor + required_acks quorum factor → factor ≤ 2)
      × (factor ≤ 2 → replicas factor < required_acks one factor + required_acks quorum factor)
unfolding required_acks
required_acks_overlap c factor = ground arith

-- Metrics: uint64 counters.
pub record Metrics : Type 0 where
  pub successful_quorum_reads : ℕ
  pub successful_quorum_writes : ℕ
  pub failed_quorum_reads : ℕ
  pub failed_quorum_writes : ℕ
  pub read_repairs_performed : ℕ

abbrev pub new_metrics : Metrics
new_metrics = record {
  successful_quorum_reads = 0;
  successful_quorum_writes = 0;
  failed_quorum_reads = 0;
  failed_quorum_writes = 0;
  read_repairs_performed = 0;
}

abbrev increment : ℕ → ℕ
increment n = (n + 1) % 2 ^ 64

-- One constructor for each Inc method.
pub data Count : Type 0 where
  successful_read successful_write failed_read failed_write read_repair : Count

unfoldable pub count : Count → Metrics → Metrics
count successful_read m = record m { successful_quorum_reads = increment m.successful_quorum_reads }
count successful_write m = record m {
  successful_quorum_writes = increment m.successful_quorum_writes;
}
count failed_read m = record m { failed_quorum_reads = increment m.failed_quorum_reads }
count failed_write m = record m { failed_quorum_writes = increment m.failed_quorum_writes }
count read_repair m = record m { read_repairs_performed = increment m.read_repairs_performed }
