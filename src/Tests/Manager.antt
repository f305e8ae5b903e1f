-- ===== src/Tests/Manager.antt =====
-- The cluster manager's theorems at a small cluster.
use cluster_db.Prelude.{◌≡◌, refl, true, List, [], ◌∷◌, map, none, some, ok}
use cluster_db.Prelude.Bytes.{text, bytes_eq}
use cluster_db.Prelude.Table.{lookup}
use cluster_db.Wal.Crc.{crc32}
use cluster_db.HashRing.Ring.{
  new_ring, replica_owners, start_index, owners_loop, virtual_entries, virtual_key,
  add_node as ring_add,
}
use cluster_db.HashRing.Search.{search}
use cluster_db.Cluster.Membership.{Node, new_membership}
use cluster_db.Cluster.Membership.Election.{IsKeyed}
use cluster_db.Cluster.Manager.{
  Manager, new_manager, joined, owners, owners_at, nodes_at, sync_hash_ring, ring_of, ring_from,
  ring_step, list_nodes,
}
use cluster_db.Cluster.Manager.Owners.{IsOwners, owners-IsOwners}
use cluster_db.Cluster.Manager.History.{
  IsSynced, Event, started, left, join_handled, heartbeat_handled, leave_handled, cluster_joined,
  ticked, gossip_set, gossip_handled, gossip_ticked, run, history-IsSynced,
}
use cluster_db.Cluster.Gossip.Rounds.{new_engine, to_node_states, local_state_snapshot}
use cluster_db.Cluster.Gossip.Snapshot.{heard, to_node_states-local_state_snapshot}
use cluster_db.Server.Messages.{GossipRequest}
use cluster_db.Tests.Stable.{stable, arrange, place}

abbrev node_a : Node
node_a = joined (text "a") (text "h:1") 5

abbrev lone : Manager
lone =
    new_manager stable (record new_membership { nodes = (text "a", node_a) ∷ [] }) 1 3 (text "a")
      (text "h:1")

lone-IsKeyed : IsKeyed lone.membership.nodes
unfolding new_manager lookup
lone-IsKeyed = (refl, refl, tt)

a_owns : (owners stable (text "x") 2 lone).0 ≡ some (node_a ∷ [])
unfolding owners owners_at nodes_at sync_hash_ring ring_of ring_from ring_step list_nodes
    new_manager new_membership new_ring ring_add replica_owners owners_loop start_index search
    virtual_entries virtual_key crc32 lookup bytes_eq arrange place
a_owns = refl

owners-IsOwners_example : IsOwners lone.membership.nodes 2 (node_a ∷ [])
owners-IsOwners_example = owners-IsOwners stable (text "x") 2 lone (node_a ∷ []) lone-IsKeyed a_owns

abbrev told : GossipRequest
told = record {
  sender_id = text "c";
  sender_addr = text "h:3";
  nodes =
      record {
        id = text "c";
        address = text "h:3";
        status = text "SUSPECT";
        version = text "v2";
        last_heartbeat = 8;
      }
      ∷ [];
}

abbrev day : List (Event stable)
day =
    started
    ∷ join_handled (text "b") (text "h:2") 7
    ∷ heartbeat_handled (text "b") (text "h:2") 8
    ∷ ticked (λ a. true) 9
    ∷ cluster_joined (text "h:3") none 10
    ∷ gossip_set (some (new_engine (text "a") (text "h:1") 0 0 0))
    ∷ gossip_handled told
    ∷ gossip_ticked (λ a req. ok (record { accepted = true; message = []; nodes = told.nodes }))
        (new_engine (text "a") (text "h:1") 0 0 0) (λ n. []) 99
    ∷ leave_handled (text "b")
    ∷ left
    ∷ []

history-IsSynced_example :
    IsSynced stable (run stable day (new_manager stable new_membership 1 3 (text "a") (text "h:1")))
history-IsSynced_example = history-IsSynced stable day 1 3 (text "a") (text "h:1")

to_node_states-local_state_snapshot_example :
    to_node_states (local_state_snapshot lone.membership)
    ≡ map heard (list_nodes lone.membership.nodes)
to_node_states-local_state_snapshot_example = to_node_states-local_state_snapshot lone.membership
