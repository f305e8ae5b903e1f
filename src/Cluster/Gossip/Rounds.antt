-- ===== src/Cluster/Gossip/Rounds.antt =====
-- internal/cluster/gossip/gossip.go, peer.go and messages.go: the engine's life cycle, what it sends
-- and answers, and a tick of its loop. The membership is the one that it shares with the manager.
use cluster_db.Prelude.{ℕ, ◌*◌, Bool, true, false, not, ◌||◌, none, some}
use cluster_db.Prelude.{List, [], ◌∷◌, ◌++◌, length, get_elem?, take, leb, ◌==◌, if◌then◌else◌}
use cluster_db.Prelude.{Result, ok, err}
use cluster_db.Prelude.Bytes.{Bytes, text, bytes_eq}
use cluster_db.Storage.Time.{Time}
use cluster_db.Config.Paths.{to_lower}
use cluster_db.Cluster.Membership.{Status, alive, suspect, dead, Node, Membership}
use cluster_db.Cluster.Manager.{list_nodes, status_text}
use cluster_db.Cluster.Gossip.{NodeState, merge_membership, evaluate_failure_detector, candidates}
use cluster_db.Server.Messages.{GossipNodeInfo, GossipRequest, GossipResponse}
use cluster_db.Server.Reply.{RpcError}

-- Engine; its pointers to the membership, the client and the hints have no counterpart.
pub record GossipEngine : Type 0 where
  pub local_node_id : Bytes
  pub local_address : Bytes
  pub interval : ℕ
  pub fanout : ℕ
  pub failure_timeout : ℕ
  pub started : Bool

-- NewEngine; what is not positive in its configuration is 0 here.
unfoldable pub new_engine : Bytes → Bytes → ℕ → ℕ → ℕ → GossipEngine
new_engine id address interval fanout timeout = record {
  local_node_id = id;
  local_address = address;
  interval = if interval == 0 then 1000000000 else interval;
  fanout = if fanout == 0 then 3 else fanout;
  failure_timeout = if timeout == 0 then 30 * 1000000000 else timeout;
  started = false;
}

-- Start; the goroutine runs `tick`.
unfoldable pub start_engine : GossipEngine → GossipEngine
start_engine e = if e.started then e else record e { started = true }

-- Stop
unfoldable pub stop_engine : GossipEngine → GossipEngine
stop_engine e = if not e.started then e else record e { started = false }

-- The switch of ToGossipNodeStates.
unfoldable pub status_of_info : Bytes → Status
status_of_info s =
    if bytes_eq (to_lower s) (text "suspect")
    then suspect
    else if bytes_eq (to_lower s) (text "dead")
    then dead
    else alive

-- ToGossipNodeStates
unfoldable pub to_node_states : List GossipNodeInfo → List NodeState
unfolding status_of_info
to_node_states [] = []
to_node_states (i ∷ is) =
    record {
      node_id = i.id;
      address = i.address;
      status = status_of_info i.status;
      version = i.version;
      last_heartbeat = i.last_heartbeat;
    }
    ∷ to_node_states is

-- The loop of GetLocalStateSnapshot.
unfoldable pub infos_of : List Node → List GossipNodeInfo
infos_of [] = []
infos_of (n ∷ ns) =
    record {
      id = n.id;
      address = n.address;
      status = status_text n.status;
      version = n.version;
      last_heartbeat = n.last_heartbeat;
    }
    ∷ infos_of ns

-- GetLocalStateSnapshot
unfoldable pub local_state_snapshot : Membership → List GossipNodeInfo
unfolding infos_of
local_state_snapshot m = infos_of (list_nodes m.nodes)

-- MergeMembership of a message's nodes, with the ids and addresses whose hints it replays.
unfoldable pub merge_infos : List GossipNodeInfo → Membership → List (Bytes × Bytes) × Membership
unfolding to_node_states
merge_infos is m = if length is == 0 then ([], m) else merge_membership (to_node_states is) m

-- HandleInboundGossip
unfoldable pub handle_inbound_gossip :
    GossipRequest → Membership → (GossipResponse × List (Bytes × Bytes)) × Membership
unfolding merge_infos local_state_snapshot
handle_inbound_gossip req m =
    let r = merge_infos req.nodes m in
    ((record { accepted = true; message = text "ok"; nodes = local_state_snapshot r.1 }, r.0), r.1)

-- candidates[perm[i]] for the first indices that `perm` names.
unfoldable pub picked : List ℕ → List Node → List Node
picked [] ns = []
picked (i ∷ is) ns =
    let rest = picked is ns in elim (get_elem? ns i) [ none ↦ rest | some n ↦ n ∷ rest ]

-- SelectRandomPeers; `perm` is Perm of the source of random numbers.
unfoldable pub select_random_peers : (ℕ → List ℕ) → List Node → ℕ → Bytes → List Node
unfolding picked candidates
select_random_peers perm nodes fanout local =
    let found = candidates local nodes in
    if fanout == 0 || length nodes == 0
    then []
    else if leb (length found) fanout
    then found
    else picked (take fanout (perm (length found))) found

-- What a round that talks to peers leaves: the peers, the replays that it starts, the membership.
pub record Round (W : Type 0) : Type 0 where
  pub peers : W
  pub replays : List (Bytes × Bytes)
  pub members : Membership

module _ {W : Type 0} (send : Bytes → GossipRequest → W → Result RpcError GossipResponse × W)
    (e : GossipEngine) where
  -- One exchange of gossipCycle, with the snapshot that the cycle took at its start.
  unfoldable pub exchange_one : List GossipNodeInfo → Node → Round W → Round W
  exchange_one snapshot peer r =
      if length peer.address == 0
      then r
      else let a =
          send peer.address
            (record {
              sender_id = e.local_node_id;
              sender_addr = e.local_address;
              nodes = snapshot;
            })
            r.peers in
        elim a.0 [
          | err x ↦ record r { peers = a.1 }
          | ok resp ↦
              let g = merge_infos resp.nodes r.members in
              if resp.accepted
              then record { peers = a.1; replays = r.replays ++ g.0; members = g.1 }
              else record r { peers = a.1 }
        ]

  unfoldable pub exchange_all : List GossipNodeInfo → List Node → Round W → Round W
  unfolding exchange_one
  exchange_all snapshot [] r = r
  exchange_all snapshot (p ∷ ps) r = exchange_all snapshot ps (exchange_one snapshot p r)

  -- gossipCycle
  unfoldable pub gossip_cycle : (ℕ → List ℕ) → Round W → Round W
  unfolding select_random_peers exchange_all local_state_snapshot
  gossip_cycle perm r =
      let nodes = list_nodes r.members.nodes in
      exchange_all (local_state_snapshot r.members)
        (select_random_peers perm nodes e.fanout e.local_node_id) r

  -- One tick of runLoop; the clock is read at its end.
  unfoldable pub tick : (ℕ → List ℕ) → Time → Round W → Round W
  unfolding gossip_cycle
  tick perm ts r =
      let r' = gossip_cycle perm r in
      record r' {
        members = evaluate_failure_detector ts e.failure_timeout e.local_node_id r'.members;
      }
