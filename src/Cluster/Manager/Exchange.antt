-- ===== src/Cluster/Manager/Exchange.antt =====
-- internal/cluster/manager.go with a gossip engine: what its rounds do to the shared membership,
-- each change of which calls the manager's hook.
use cluster_db.Prelude.{ℕ, true, false, Option, none, some, List, [], if◌then◌else◌, Result}
use cluster_db.Prelude.Bytes.{Bytes, text}
use cluster_db.Storage.Time.{Time}
use cluster_db.HashRing.Ring.{Sorter}
use cluster_db.Cluster.Manager.{Manager, on_membership}
use cluster_db.Cluster.Gossip.Rounds.{GossipEngine, handle_inbound_gossip, tick}
use cluster_db.Server.Messages.{GossipRequest, GossipResponse}
use cluster_db.Server.Reply.{RpcError}

-- SetGossipEngine, of an engine or nil.
unfoldable pub set_gossip_engine : Option GossipEngine → Manager → Manager
set_gossip_engine none m = record m { gossip = false }
set_gossip_engine (some e) m = record m { gossip = true }

module _ (s : Sorter) where
  -- HandleGossip, with the ids and addresses whose hints the engine replays.
  unfoldable pub handle_gossip :
      GossipRequest → Manager → (GossipResponse × List (Bytes × Bytes)) × Manager
  handle_gossip req m =
      if m.gossip
      then (
        (handle_inbound_gossip req m.membership).0,
        on_membership s (λ x. (handle_inbound_gossip req x).1) m,
      )
      else ((record { accepted = true; message = text "ok"; nodes = [] }, []), m)

  -- A tick of the engine's loop beside the manager, over the peers `w`.
  unfoldable pub gossip_tick :
      {W : Type 0}
      → (Bytes → GossipRequest → W → Result RpcError GossipResponse × W)
      → GossipEngine
      → (ℕ → List ℕ)
      → Time
      → W
      → Manager
      → Manager
  gossip_tick send e perm ts w m =
      on_membership s
        (λ x. (tick send e perm ts (record { peers = w; replays = []; members = x })).members) m
