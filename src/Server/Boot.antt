-- ===== src/Server/Boot.antt =====
-- internal/server/bootstrap.go: the callbacks that New gives the RPC server of a node.
pub mod World
pub mod Served
pub mod Replicas
use cluster_db.Prelude.{Bool, true, Option, none, some, List, [], if◌then◌else◌, ◌++◌, ok, err}
use cluster_db.Prelude.Bytes.{Bytes, text}
use cluster_db.Storage.Time.{Time}
use cluster_db.Storage.Types.{Error}
use cluster_db.Storage.Manager.{StorageManager}
use cluster_db.Os.Disk.{Os}
use cluster_db.HashRing.Ring.{Sorter}
use cluster_db.Cluster.Manager.{Manager, handle_join, handle_heartbeat, handle_leave}
use cluster_db.Cluster.Manager.Exchange.{handle_gossip}
use cluster_db.Server.Messages.{
  HeartbeatRequest, HeartbeatResponse, JoinRequest, JoinResponse, LeaveRequest, LeaveResponse,
  GossipRequest, GossipResponse,
}
use cluster_db.Server.Node.{
  serve_kv_get, serve_kv_put, serve_kv_delete, serve_replica_put, serve_replica_delete,
  serve_replica_get,
}
use cluster_db.Server.Rpc.Endpoint.{Callback, RpcServer}

-- What the callbacks of a node work on: its store, its cluster manager, what its clock reads, and
-- the nodes whose hints its gossip engine has been told to replay.
pub record NodeState : Type 0 where
  pub store : Option StorageManager
  pub cluster : Manager
  pub clock : Time
  pub replays : List (Bytes × Bytes)

-- A callback that works on the store; it gives no error.
abbrev pub on_store :
    {Req Resp : Type 0}
    → (Req → Option StorageManager → Resp × Option StorageManager)
    → Callback NodeState Req Resp
on_store f req w = let r = f req w.store in (ok r.0, record w { store = r.1 })

-- The text of the error that HandleJoin, HandleHeartbeat and HandleLeave give.
abbrev invalid : Bytes → Bytes
invalid what = text "cluster: invalid " ++ what ++ text " request"

module _ (s : Sorter) where
  unfoldable pub on_join : Callback NodeState JoinRequest JoinResponse
  on_join req w =
      let r = handle_join s req.node_id req.address w.clock w.cluster in
      (
        elim r.0 [
          | err e ↦ err (invalid (text "join"))
          | ok members ↦ ok (record { accepted = true; message = []; members = members })
        ],
        record w { cluster = r.1 },
      )

  unfoldable pub on_heartbeat : Callback NodeState HeartbeatRequest HeartbeatResponse
  on_heartbeat req w =
      let r = handle_heartbeat s req.node_id req.address w.clock w.cluster in
      (
        elim r.0 [
          | err e ↦ err (invalid (text "heartbeat"))
          | ok u ↦ ok (record { accepted = true; message = [] })
        ],
        record w { cluster = r.1 },
      )

  unfoldable pub on_leave : Callback NodeState LeaveRequest LeaveResponse
  on_leave req w =
      let r = handle_leave s req.node_id w.cluster in
      (
        elim r.0 [
          | err e ↦ err (invalid (text "leave"))
          | ok u ↦ ok (record { accepted = true; message = [] })
        ],
        record w { cluster = r.1 },
      )

  unfoldable pub on_gossip : Callback NodeState GossipRequest GossipResponse
  on_gossip req w =
      let r = handle_gossip s req w.cluster in
      (ok r.0.0, record w { cluster = r.1; replays = w.replays ++ r.0.1 })

-- The RPC server of New, for a node with a cluster manager or without. `detail` is the text of an
-- error that does not come from internal/storage/errors.go.
unfoldable pub node_server : (Error → Bytes) → Os → Sorter → Bool → RpcServer NodeState
node_server detail os s clustered = record {
  heartbeat_handler = some (
      if clustered then on_heartbeat s else λ req w.
      (ok (record { accepted = true; message = text "ok" }), w));
  join_handler = some (
      if clustered then on_join s else λ req w.
      (ok (record { accepted = true; message = text "ok"; members = [] }), w));
  leave_handler = some (
      if clustered then on_leave s else λ req w.
      (ok (record { accepted = true; message = text "ok" }), w));
  append_handler = some (λ req w. (ok (record { accepted = true; message = text "ok" }), w));
  kv_get_handler = some (on_store (serve_kv_get detail os));
  kv_put_handler = some (on_store (serve_kv_put detail os));
  kv_delete_handler = some (on_store (serve_kv_delete detail os));
  replica_put_handler = some (on_store (serve_replica_put detail os));
  replica_delete_handler = some (on_store (serve_replica_delete detail os));
  replica_get_handler = some (on_store (serve_replica_get detail os));
  gossip_handler = if clustered then some (on_gossip s) else none;
}
