-- ===== src/Cluster/Manager.antt =====
-- internal/cluster/manager.go: the membership and the hash ring that follows it.
pub mod Sync
pub mod Owners
pub mod Exchange
pub mod Announces
pub mod History
use cluster_db.Prelude.{ℕ, Bool, true, false, not, ◌&&◌, ◌||◌}
use cluster_db.Prelude.{List, [], ◌∷◌, length, Option, none, some, ◌==◌, if◌then◌else◌}
use cluster_db.Prelude.{Result, ok, err}
use cluster_db.Prelude.Bytes.{Bytes, text, bytes_eq}
use cluster_db.Prelude.Table.{Table, lookup}
use cluster_db.Storage.Time.{Time}
use cluster_db.HashRing.Ring.{
  HashRing, Sorter, new_ring, get_node, replica_owners, add_node as ring_add,
}
use cluster_db.Cluster.Membership.{
  Status, alive, suspect, dead, unknown, is_alive, Node, Membership, MembershipError, empty_node,
  add_node, remove_node, update_heartbeat, elect_leader, leader,
}

-- `gossip` is set while a gossip engine is registered. The mutexes, the channels and the metrics
-- have no counterpart.
pub record Manager : Type 0 where
  pub membership : Membership
  pub heartbeat_tick : ℕ
  pub failure_timeout : ℕ
  pub local_node_id : Bytes
  pub local_address : Bytes
  pub started : Bool
  pub replication_factor : ℕ
  pub write_quorum : ℕ
  pub read_quorum : ℕ
  pub hash_ring : HashRing
  pub gossip : Bool

-- The version that the manager gives to nodes.
abbrev cluster_version : Bytes
cluster_version = text "cluster/v1"

-- A node that has just been heard of.
abbrev pub joined : Bytes → Bytes → Time → Node
joined id address ts = record {
  id = id;
  address = address;
  status = alive;
  last_heartbeat = ts;
  is_leader = false;
  version = cluster_version;
}

-- ListNodes
unfoldable pub list_nodes : Table Node → List Node
list_nodes [] = []
list_nodes ((k, n) ∷ m) = n ∷ list_nodes m

-- What a handler answers: refused with an error, or accepted.
pub data HandlerError : Type 0 where
  invalid_request missing_address unreachable rejected : HandlerError

-- MemberInfo
pub record MemberInfo : Type 0 where
  pub id : Bytes
  pub address : Bytes
  pub status : Bytes
  pub is_leader : Bool

-- Status.String
unfoldable pub status_text : Status → Bytes
status_text alive = text "alive"
status_text suspect = text "suspect"
status_text dead = text "dead"
status_text unknown = text "unknown"

-- The switch of applyMembershipSnapshot.
unfoldable pub status_of_text : Bytes → Status
status_of_text s =
    if bytes_eq s (text "suspect")
    then suspect
    else if bytes_eq s (text "dead")
    then dead
    else alive

-- membershipSnapshot
unfoldable pub snapshot_from : List Node → List MemberInfo
snapshot_from [] = []
snapshot_from (n ∷ ns) =
    record {
      id = n.id;
      address = n.address;
      status = status_text n.status;
      is_leader = n.is_leader;
    }
    ∷ snapshot_from ns

unfoldable pub membership_snapshot : Manager → List MemberInfo
membership_snapshot m = snapshot_from (list_nodes m.membership.nodes)

-- GetNode of the membership for each id that is found.
unfoldable pub nodes_at : Table Node → List Bytes → List Node
nodes_at t [] = []
nodes_at t (id ∷ ids) = elim (lookup id t) [ none ↦ nodes_at t ids | some n ↦ n ∷ nodes_at t ids ]

-- The end of Owners: the nodes that the ring names, unless there is none.
unfoldable pub owners_at : Table Node → Option (List Bytes) → Option (List Node)
owners_at t none = none
owners_at t (some ids) = elim (nodes_at t ids) [ [] ↦ none | n ∷ ns ↦ some (n ∷ ns) ]

module _ (s : Sorter) where
  -- One round of the loop of syncHashRing.
  unfoldable pub ring_step : Node → HashRing → HashRing
  ring_step n r = if length n.id == 0 || not (is_alive n.status) then r else ring_add s n.id r

  unfoldable pub ring_from : List Node → HashRing → HashRing
  ring_from [] r = r
  ring_from (n ∷ ns) r = ring_from ns (ring_step n r)

  unfoldable pub ring_of : Membership → HashRing
  ring_of m = ring_from (list_nodes m.nodes) (new_ring 100)

  -- syncHashRing
  unfoldable pub sync_hash_ring : Manager → Manager
  sync_hash_ring m = record m { hash_ring = ring_of m.membership }

  -- A call of the membership, which calls the hook that NewManager installs.
  unfoldable pub on_membership : (Membership → Membership) → Manager → Manager
  on_membership f m =
      let members = f m.membership in
      let m' = record m { membership = members } in
      if members.notified == m.membership.notified then m' else sync_hash_ring m'

  -- NewManager
  unfoldable pub new_manager : Membership → ℕ → ℕ → Bytes → Bytes → Manager
  new_manager members tick timeout id address = record {
    membership = record members { hook = true };
    heartbeat_tick = tick;
    failure_timeout = timeout;
    local_node_id = id;
    local_address = address;
    started = false;
    replication_factor = 0;
    write_quorum = 0;
    read_quorum = 0;
    hash_ring = new_ring 100;
    gossip = false;
  }

  -- electLeader: only its log depends on who led before.
  unfoldable pub elect : Manager → Manager
  elect m = sync_hash_ring (record m { membership = (elect_leader m.membership).1 })

  -- Start; the registered node has no heartbeat yet. The goroutines run `monitor_tick`.
  unfoldable pub start_manager : Manager → Manager
  start_manager m =
      if m.started
      then m
      else elect (
          sync_hash_ring (
            on_membership (add_node (joined m.local_node_id m.local_address 0))
              (record m { started = true })))

  -- Stop
  unfoldable pub stop_manager : Manager → Manager
  stop_manager m = record m { started = false }

  -- HandleJoin
  unfoldable pub handle_join :
      Bytes → Bytes → Time → Manager → Result HandlerError (List MemberInfo) × Manager
  handle_join id address ts m =
      if length id == 0
      then (err invalid_request, m)
      else let m' = elect (sync_hash_ring (on_membership (add_node (joined id address ts)) m)) in
        (ok (membership_snapshot m'), m')

  -- UpdateHeartbeat, with its error as a flag.
  unfoldable pub beat : Bytes → Time → Manager → Bool × Manager
  beat id ts m = (
    elim (update_heartbeat id ts m.membership).0 [ ok u ↦ true | err e ↦ false ],
    on_membership (λ x. (update_heartbeat id ts x).1) m,
  )

  -- HandleHeartbeat; the two readings of the clock are the same instant.
  unfoldable pub handle_heartbeat :
      Bytes → Bytes → Time → Manager → Result HandlerError (Unit {0}) × Manager
  handle_heartbeat id address ts m =
      if length id == 0
      then (err invalid_request, m)
      else let (known, m') = beat id ts m in
        (
          ok tt,
          sync_hash_ring (
              if known
              then sync_hash_ring m'
              else on_membership (add_node (joined id address ts)) m'),
        )

  -- HandleLeave
  unfoldable pub handle_leave : Bytes → Manager → Result HandlerError (Unit {0}) × Manager
  handle_leave id m =
      if length id == 0
      then (err invalid_request, m)
      else (ok tt, elect (sync_hash_ring (on_membership (remove_node id) m)))

  -- The loop of applyMembershipSnapshot.
  unfoldable pub add_members : Time → List MemberInfo → Manager → Manager
  add_members ts [] m = m
  add_members ts (i ∷ is) m = add_members ts is (
      if length i.id == 0
      then m
      else on_membership
          (add_node (record (joined i.id i.address ts) {
            status = status_of_text i.status;
            is_leader = i.is_leader;
          }))
          m)

  -- applyMembershipSnapshot
  unfoldable pub apply_snapshot : Time → List MemberInfo → Manager → Manager
  unfolding add_members
  apply_snapshot ts is m = sync_hash_ring (add_members ts is m)

  -- JoinCluster, with what the RPC returned: an error, or the answer's flag and members.
  unfoldable pub join_cluster :
      Bytes
      → Option (Bool × List MemberInfo)
      → Time
      → Manager
      → Result HandlerError (List Node) × Manager
  join_cluster address none ts m =
      (err (if length address == 0 then missing_address else unreachable), m)
  join_cluster address (some (accepted, members)) ts m =
      if length address == 0
      then (err missing_address, m)
      else if not accepted
      then (err rejected, m)
      else let m1 = on_membership (add_node (joined m.local_node_id m.local_address ts)) m in
        let m2 = elect (sync_hash_ring (apply_snapshot ts members m1)) in
        (ok (list_nodes m2.membership.nodes), m2)

  -- LeaveCluster; the peers' answers are dropped.
  unfoldable pub leave_cluster : Manager → Manager
  leave_cluster m =
      stop_manager (elect (sync_hash_ring (on_membership (remove_node m.local_node_id) m)))

  -- The loop of sendHeartbeats over a snapshot; `reached` says whether a peer answered.
  unfoldable pub beats_from : (Bytes → Bool) → Time → List Node → Manager → Manager
  unfolding beat
  beats_from reached ts [] m = m
  beats_from reached ts (n ∷ ns) m =
      let skipped =
        bytes_eq n.id m.local_node_id || not (is_alive n.status) || length n.address == 0 in
      beats_from reached ts ns
        (if skipped then m else if reached n.address then (beat n.id ts m).1 else m)

  -- sendHeartbeats
  unfoldable pub send_heartbeats : (Bytes → Bool) → Time → Manager → Manager
  unfolding beats_from
  send_heartbeats reached ts m =
      if m.heartbeat_tick == 0 then m else beats_from reached ts (list_nodes m.membership.nodes) m

  -- One tick of monitorLoop.
  unfoldable pub monitor_tick : (Bytes → Bool) → Time → Manager → Manager
  unfolding beat send_heartbeats
  monitor_tick reached ts m = elect (send_heartbeats reached ts (beat m.local_node_id ts m).1)

  -- Owner
  unfoldable pub owner : Bytes → Manager → Option Node × Manager
  owner key m =
      let m' = sync_hash_ring m in
      (
        elim (get_node key m'.hash_ring) [ none ↦ none | some id ↦ lookup id m'.membership.nodes ],
        m',
      )

  -- Owners
  unfoldable pub owners : Bytes → ℕ → Manager → Option (List Node) × Manager
  owners key factor m =
      let m' = sync_hash_ring m in
      (owners_at m'.membership.nodes (replica_owners key factor m'.hash_ring), m')

  -- LocalNode
  unfoldable pub local_node : Manager → Node × Manager
  local_node m =
      let m' = sync_hash_ring m in
      (
        if length m.local_node_id == 0
            then empty_node
            else elim (lookup m.local_node_id m'.membership.nodes) [
              | none ↦ empty_node
              | some n ↦ n
            ],
        m',
      )

  -- Manager.Leader
  unfoldable pub known_leader : Manager → Option Node × Manager
  known_leader m = let m' = sync_hash_ring m in (leader m'.membership.nodes, m')

-- IsLocalNode
unfoldable pub is_local_node : Bytes → Manager → Bool
is_local_node id m = not (length m.local_node_id == 0) && bytes_eq m.local_node_id id
