-- ===== src/Cluster/Gossip.antt =====
-- internal/cluster/gossip: the merge rules, the order of versions, and a round on the membership.
pub mod Merge
pub mod Rounds
pub mod Snapshot
pub mod Replays
use cluster_db.Prelude.{ℕ, zero, suc, ◌+◌, ◌-◌, ◌*◌, ◌^◌, Bool, true, false, not, ◌&&◌, ◌||◌}
use cluster_db.Prelude.{
  List, [], ◌∷◌, length, drop, Option, none, some, ltb, leb, ◌==◌, if◌then◌else◌,
}
use cluster_db.Prelude.Bytes.{Bytes, text, bytes_eq, bytes_lt, has_prefix}
use cluster_db.Prelude.Table.{Table, lookup}
use cluster_db.Storage.Time.{Time}
use cluster_db.Cluster.Membership.{
  Status, alive, suspect, dead, unknown, is_alive, is_suspect, is_dead, twice_past, Node,
  Membership, add_node, mark_suspect, mark_dead,
}

-- strings.TrimPrefix
unfoldable pub trim_prefix : Bytes → Bytes → Bytes
trim_prefix v prefix = if has_prefix v prefix then drop (length prefix) v else v

-- The value of decimal digits behind `acc`; `none` for another byte.
unfoldable pub digits_from : Bytes → ℕ → Option ℕ
digits_from [] acc = some acc
digits_from (c ∷ cs) acc =
    if leb b'0' c && leb c b'9' then digits_from cs (10 * acc + (c - b'0')) else none

-- strconv.ParseInt(s, 10, 64) of what follows the sign, as the int64 plus 2 ^ 63.
unfoldable pub parse_magnitude : Bool → Bytes → Option ℕ
unfolding digits_from
parse_magnitude negative s = if length s == 0 then none else elim (digits_from s 0) [
  | none ↦ none
  | some n ↦
      if negative
      then (if leb n (2 ^ 63) then some (2 ^ 63 - n) else none)
      else if ltb n (2 ^ 63)
      then some (2 ^ 63 + n)
      else none
]

unfoldable pub parse_int : Bytes → Option ℕ
unfolding parse_magnitude
parse_int [] = none
parse_int (c ∷ cs) =
    if c == b'-'
    then parse_magnitude true cs
    else if c == b'+'
    then parse_magnitude false cs
    else parse_magnitude false (c ∷ cs)

-- parseVersionNum
unfoldable pub parse_version_num : Bytes → Option ℕ
unfolding trim_prefix parse_int
parse_version_num v = parse_int (trim_prefix (trim_prefix v (text "cluster/")) (text "v"))

-- What CompareVersions returns: -1, 0 or 1.
pub data Comparison : Type 0 where
  less equal greater : Comparison

unfoldable pub compare_numbers : ℕ → ℕ → Comparison
compare_numbers a b = if ltb b a then greater else if ltb a b then less else equal

-- strings.Compare
unfoldable pub compare_strings : Bytes → Bytes → Comparison
compare_strings a b = if bytes_lt b a then greater else if bytes_lt a b then less else equal

-- The end of CompareVersions: by number where both versions are one.
unfoldable pub compare_parsed : Option ℕ → Option ℕ → Bytes → Bytes → Comparison
compare_parsed (some a) (some b) v1 v2 = compare_numbers a b
compare_parsed (some a) none v1 v2 = compare_strings v1 v2
compare_parsed none p v1 v2 = compare_strings v1 v2

-- CompareVersions
unfoldable pub compare_versions : Bytes → Bytes → Comparison
compare_versions v1 v2 =
    if bytes_eq v1 v2
    then equal
    else if length v1 == 0
    then less
    else if length v2 == 0
    then greater
    else compare_parsed (parse_version_num v1) (parse_version_num v2) v1 v2

-- statusPriority
unfoldable pub status_priority : Status → ℕ
status_priority alive = 3
status_priority suspect = 2
status_priority dead = 1
status_priority unknown = 0

-- The rest of MergeNodeStates, for versions that compare as equal.
unfoldable pub merge_equal : Node → Node → Bool × Node
merge_equal existing remote =
    let after = ltb existing.last_heartbeat remote.last_heartbeat in
    let promoted =
      leb existing.last_heartbeat remote.last_heartbeat
      && ltb (status_priority existing.status) (status_priority remote.status) in
    let moved =
      not (length remote.address == 0) && not (bytes_eq existing.address remote.address) in
    (
      after || promoted || moved,
      record existing {
        last_heartbeat = if after then remote.last_heartbeat else existing.last_heartbeat;
        status = if promoted then remote.status else existing.status;
        address = if moved then remote.address else existing.address;
      },
    )

-- MergeNodeStates, behind the comparison of the remote version with the existing one.
unfoldable pub merge_by : Comparison → Node → Node → Bool × Node
merge_by greater existing remote = (true, remote)
merge_by less existing remote = (false, existing)
merge_by equal existing remote = merge_equal existing remote

-- MergeNodeStates
unfoldable pub merge_node_states : Node → Node → Bool × Node
merge_node_states existing remote =
    merge_by (compare_versions remote.version existing.version) existing remote

-- GossipNodeState
pub record NodeState : Type 0 where
  pub node_id : Bytes
  pub address : Bytes
  pub status : Status
  pub version : Bytes
  pub last_heartbeat : Time

-- FromNode
unfoldable pub from_node : Node → NodeState
from_node n = record {
  node_id = n.id;
  address = n.address;
  status = n.status;
  version = n.version;
  last_heartbeat = n.last_heartbeat;
}

-- GossipNodeState.ToNode
unfoldable pub to_node : NodeState → Node
to_node s = record {
  id = s.node_id;
  address = s.address;
  status = s.status;
  last_heartbeat = s.last_heartbeat;
  is_leader = false;
  version = s.version;
}

-- One round of the loop of MergeMembership, with the node whose hints it has replayed.
unfoldable pub merge_one : NodeState → Membership → Option (Bytes × Bytes) × Membership
unfolding merge_node_states to_node
merge_one remote m =
    if length remote.node_id == 0 then (none, m) else elim (lookup remote.node_id m.nodes) [
      | none ↦ (
        if is_alive remote.status then some (remote.node_id, remote.address) else none,
        add_node (to_node remote) m,
      )
      | some existing ↦
          let (changed, updated) = merge_node_states existing (to_node remote) in
          if not changed then (none, m) else (
            if is_alive updated.status && not (is_alive existing.status)
                then some (updated.id, updated.address)
                else none,
            add_node updated m,
          )
    ]

-- MergeMembership
unfoldable pub merge_membership : List NodeState → Membership → List (Bytes × Bytes) × Membership
unfolding merge_one
merge_membership [] m = ([], m)
merge_membership (remote ∷ remotes) m =
    let (replayed, m') = merge_one remote m in
    let (more, m'') = merge_membership remotes m' in
    (elim replayed [ none ↦ more | some r ↦ r ∷ more ], m'')

-- One round of the loop of evaluateFailureDetector, over a node of the snapshot. Another goroutine
-- may have removed the node: the errors of the marks are dropped.
unfoldable pub evaluate_one : Time → ℕ → Bytes → Node → Membership → Membership
evaluate_one ts timeout local n m =
    if bytes_eq n.id local || is_dead n.status
    then m
    else if is_alive n.status && ltb (n.last_heartbeat + timeout) ts
    then (mark_suspect n.id m).1
    else if is_suspect n.status && twice_past n.last_heartbeat timeout ts
    then (mark_dead n.id m).1
    else m

unfoldable pub evaluate_from : Time → ℕ → Bytes → Table Node → Membership → Membership
unfolding evaluate_one
evaluate_from ts timeout local [] m = m
evaluate_from ts timeout local ((k, n) ∷ nodes) m =
    evaluate_from ts timeout local nodes (evaluate_one ts timeout local n m)

-- evaluateFailureDetector
unfoldable pub evaluate_failure_detector : Time → ℕ → Bytes → Membership → Membership
unfolding evaluate_from
evaluate_failure_detector ts timeout local m = evaluate_from ts timeout local m.nodes m

-- The candidates of SelectRandomPeers.
unfoldable pub candidates : Bytes → List Node → List Node
candidates local [] = []
candidates local (n ∷ ns) =
    let rest = candidates local ns in
    if bytes_eq n.id local || length n.address == 0 then rest else n ∷ rest
