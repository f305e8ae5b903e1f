-- ===== src/Cluster/Membership.antt =====
-- internal/cluster/membership.go: the members of the cluster, their health and their leader.
pub mod Election
pub mod Keyed
pub mod Detector
pub mod Silence
use cluster_db.Prelude.{
  ℕ, zero, suc, ◌+◌, ◌*◌, ◌-◌, ◌^◌, ◌≤◌, ◌<◌, ◌≡◌, arith, Bool, true, false, not, ◌&&◌, ◌||◌,
}
use cluster_db.Prelude.{List, [], ◌∷◌, length, Option, none, some, ltb, ◌==◌, if◌then◌else◌}
use cluster_db.Prelude.{Result, ok, err}
use cluster_db.Prelude.Bytes.{Bytes, bytes_eq, bytes_lt}
use cluster_db.Prelude.Table.{Table, lookup, insert, remove, keys}
use cluster_db.Storage.Time.{Time}

-- Status; any other int is `unknown`.
pub data Status : Type 0 where
  alive suspect dead unknown : Status

abbrev pub is_alive : Status → Bool
is_alive alive = true
is_alive _ = false

abbrev pub is_suspect : Status → Bool
is_suspect suspect = true
is_suspect _ = false

abbrev pub is_dead : Status → Bool
is_dead dead = true
is_dead _ = false

pub record Node : Type 0 where
  pub id : Bytes
  pub address : Bytes
  pub status : Status
  pub last_heartbeat : Time
  pub is_leader : Bool
  pub version : Bytes

-- `hook` is set while a change hook is installed, and `notified` counts its calls; `detector` is
-- failureDetectorStarted.
pub record Membership : Type 0 where
  pub nodes : Table Node
  pub local_node_id : Bytes
  pub heartbeat_interval : ℕ
  pub failure_timeout : ℕ
  pub detector : Bool
  pub hook : Bool
  pub notified : ℕ

-- `cluster: node %q not found`
pub data MembershipError : Type 0 where
  node_not_found : MembershipError

abbrev second : ℕ
second = 1000000000

abbrev pub empty_node : Node
empty_node = record {
  id = [];
  address = [];
  status = unknown;
  last_heartbeat = 0;
  is_leader = false;
  version = [];
}

-- NewMembership
unfoldable pub new_membership : Membership
new_membership = record {
  nodes = [];
  local_node_id = [];
  heartbeat_interval = second;
  failure_timeout = 3 * second;
  detector = false;
  hook = false;
  notified = 0;
}

-- One round of the first loop of electLeaderLocked, for the candidate.
unfoldable pub better : Bytes → Node → Option Node → Option Node
better local n best =
    if not (is_alive n.status)
    then best
    else if bytes_eq n.id local
    then best
    else elim best [ none ↦ some n | some b ↦ if bytes_lt n.id b.id then some n else some b ]

unfoldable pub best_from : Bytes → Table Node → Option Node → Option Node
best_from local [] best = best
best_from local ((k, n) ∷ m) best = best_from local m (better local n best)

-- The last node of the loop that has the leader's flag.
unfoldable pub last_leader : Table Node → Option Node → Option Node
last_leader [] found = found
last_leader ((k, n) ∷ m) found = last_leader m (if n.is_leader then some n else found)

-- The second loop: every flag is cleared.
unfoldable pub clear_leaders : Table Node → Table Node
clear_leaders [] = []
clear_leaders ((k, n) ∷ m) = (k, record n { is_leader = false }) ∷ clear_leaders m

-- electLeaderLocked, with the node and the flag that it returns.
unfoldable pub elect_leader : Membership → (Node × Bool) × Membership
elect_leader m =
    let cleared = clear_leaders m.nodes in
    elim (best_from m.local_node_id m.nodes none) [
      | some b ↦
          let leader : Node = record b { is_leader = true } in
          ((leader, true), record m { nodes = insert b.id leader cleared })
      | none ↦ (
        (elim (last_leader m.nodes none) [ none ↦ empty_node | some n ↦ n ], false),
        record m { nodes = cleared },
      )
    ]

-- notifyChange
unfoldable pub notify_change : Membership → Membership
notify_change m = if m.hook then record m { notified = m.notified + 1 } else m

-- The tail of every change under the lock.
unfoldable pub settle : Membership → Membership
unfolding elect_leader notify_change
settle m = notify_change (elect_leader m).1

-- AddNode
unfoldable pub add_node : Node → Membership → Membership
add_node n m = settle (record m { nodes = insert n.id n m.nodes })

-- RemoveNode
unfoldable pub remove_node : Bytes → Membership → Membership
remove_node id m = settle (record m { nodes = remove id m.nodes })

-- The common body of UpdateHeartbeat, MarkSuspect and MarkDead.
unfoldable pub update_node :
    Bytes → (Node → Node) → Membership → Result MembershipError (Unit {0}) × Membership
update_node id f m = elim (lookup id m.nodes) [
  | none ↦ (err node_not_found, m)
  | some n ↦ (ok tt, settle (record m { nodes = insert id (f n) m.nodes }))
]

-- UpdateHeartbeat, at the instant that the clock reads.
unfoldable pub update_heartbeat :
    Bytes → Time → Membership → Result MembershipError (Unit {0}) × Membership
update_heartbeat id ts = update_node id (λ n. record n { last_heartbeat = ts; status = alive })

-- MarkSuspect
unfoldable pub mark_suspect : Bytes → Membership → Result MembershipError (Unit {0}) × Membership
mark_suspect id = update_node id (λ n. record n { status = suspect })

-- MarkDead
unfoldable pub mark_dead : Bytes → Membership → Result MembershipError (Unit {0}) × Membership
mark_dead id = update_node id (λ n. record n { status = dead })

-- Leader, CurrentLeader: the first node of the loop that has the flag.
unfoldable pub leader : Table Node → Option Node
leader [] = none
leader ((k, n) ∷ m) = if n.is_leader then some n else leader m

-- IsLeader
unfoldable pub is_leader : Bytes → Membership → Bool
unfolding leader
is_leader id m = elim (leader m.nodes) [ none ↦ false | some n ↦ bytes_eq n.id id ]

-- SetLeader
unfoldable pub set_leader : Bytes → Membership → Result MembershipError (Unit {0}) × Membership
set_leader id m = elim (lookup id m.nodes) [
  | none ↦ (err node_not_found, m)
  | some n ↦ (
    ok tt,
    record m { nodes = insert id (record n { is_leader = true }) (clear_leaders m.nodes) },
  )
]

-- SetFailureDetectorConfig; a negative duration behaves as 0 does.
unfoldable pub set_detector_config : ℕ → ℕ → Membership → Membership
set_detector_config interval timeout m = record m {
  heartbeat_interval = if ltb 0 interval then interval else m.heartbeat_interval;
  failure_timeout = if ltb 0 timeout then timeout else m.failure_timeout;
}

-- `now.Sub(last) > 2 * timeout`, where the product is an int64: from 2 ^ 63 on it is negative.
abbrev pub twice_past : Time → ℕ → Time → Bool
twice_past last timeout now =
    if ltb (2 * timeout) (2 ^ 63)
    then ltb (last + 2 * timeout) now
    else ltb last (now + (2 ^ 64 - 2 * timeout))

-- One round of the loop of detectFailures, which reads the node when it is visited.
-- `now.Sub(last) > d` is `last + d < now`.
unfoldable pub detect_one : Time → ℕ → Bytes → Membership → Membership
unfolding elect_leader
detect_one ts timeout id m = elim (lookup id m.nodes) [
  | none ↦ m
  | some n ↦
      if bytes_eq id m.local_node_id || bytes_eq n.id m.local_node_id
      then m
      else if is_dead n.status
      then m
      else if is_alive n.status && ltb (n.last_heartbeat + timeout) ts
      then record m { nodes = insert id (record n { status = suspect }) m.nodes }
      else if is_suspect n.status && twice_past n.last_heartbeat timeout ts
      then (elect_leader (record m { nodes = insert id (record n { status = dead }) m.nodes })).1
      else m
]

unfoldable pub detect_from : Time → ℕ → List Bytes → Membership → Membership
unfolding detect_one
detect_from ts timeout [] m = m
detect_from ts timeout (id ∷ ids) m = detect_from ts timeout ids (detect_one ts timeout id m)

-- detectFailures
unfoldable pub detect_failures : Time → ℕ → Membership → Membership
unfolding detect_from
detect_failures ts timeout m = detect_from ts timeout (keys m.nodes) m
