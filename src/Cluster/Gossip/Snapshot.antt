-- ===== src/Cluster/Gossip/Snapshot.antt =====
-- What a node hears of another's members in its gossip.
use cluster_db.Prelude.{◌≡◌, refl, List, [], ◌∷◌, map}
use cluster_db.Prelude.Bytes.{bytes_eq}
use cluster_db.Config.Paths.{to_lower}
use cluster_db.Cluster.Membership.{Status, alive, suspect, dead, unknown, Node, Membership}
use cluster_db.Cluster.Manager.{list_nodes, status_text}
use cluster_db.Cluster.Gossip.{NodeState, from_node}
use cluster_db.Cluster.Gossip.Rounds.{
  status_of_info, to_node_states, infos_of, local_state_snapshot,
}

-- A status as it is heard: one that is none of the three counts as alive.
abbrev pub heard_status : Status → Status
heard_status unknown = alive
heard_status s = s

status_of_info-status_text : (s : Status) → status_of_info (status_text s) ≡ heard_status s
unfolding status_of_info status_text to_lower bytes_eq
status_of_info-status_text alive = refl
status_of_info-status_text suspect = refl
status_of_info-status_text dead = refl
status_of_info-status_text unknown = refl

abbrev pub heard : Node → NodeState
heard n = from_node (record n { status = heard_status n.status })

to_node_states-infos_of : (ns : List Node) → to_node_states (infos_of ns) ≡ map heard ns
unfolding to_node_states infos_of from_node
to_node_states-infos_of [] = refl
to_node_states-infos_of (n ∷ ns) =
    rw (status_of_info-status_text n.status, to_node_states-infos_of ns) refl

-- What ToGossipNodeStates makes of a snapshot of a membership is FromNode of its members, one for
-- one, where a status that is not suspect or dead is alive.
pub to_node_states-local_state_snapshot :
    (m : Membership) → to_node_states (local_state_snapshot m) ≡ map heard (list_nodes m.nodes)
unfolding local_state_snapshot
to_node_states-local_state_snapshot m = to_node_states-infos_of (list_nodes m.nodes)
