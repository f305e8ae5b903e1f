-- ===== src/Server/Rpc/Client.antt =====
-- internal/cluster/rpc/client.go: a call of a peer over HTTP.
use cluster_db.Prelude.{
  ℕ, ◌||◌, Option, none, some, ◌++◌, ltb, leb, if◌then◌else◌, Result, ok, err, false,
}
use cluster_db.Prelude.Bytes.{Bytes, text}
use cluster_db.Storage.Time.{Time}
use cluster_db.Server.Messages.{
  HeartbeatRequest, HeartbeatResponse, JoinRequest, JoinResponse, LeaveRequest, LeaveResponse,
  AppendEntriesRequest, AppendEntriesResponse, KvGetRequest, KvGetResponse, KvPutRequest,
  KvPutResponse, KvDeleteRequest, KvDeleteResponse, ReplicaPutRequest, ReplicaPutResponse,
  ReplicaDeleteRequest, ReplicaDeleteResponse, ReplicaGetRequest, ReplicaGetResponse, GossipRequest,
  GossipResponse,
}
use cluster_db.Server.Reply.{RpcError}
use cluster_db.Server.Kv.State.{Peers}
use cluster_db.Server.Rpc.Http.{HttpRequest, HttpResponse, Codec, Json}

-- net/http over the state `W` of the peers and the network: the error of NewRequest for an address
-- and a path, what Do returns, and the text of a status.
pub record Net (W : Type 0) : Type 0 where
  pub create : Bytes → Bytes → Option Bytes
  pub exchange : Bytes → HttpRequest → W → Result RpcError HttpResponse × W
  pub status_line : ℕ → Bytes

-- fmt.Errorf of an error that no context made.
abbrev pub failure : Bytes → RpcError
failure m = record { canceled = false; deadline = false; message = m }

-- The error for a status that is not one of success.
abbrev pub unexpected_status : {W : Type 0} → Net W → Bytes → Bytes → ℕ → RpcError
unexpected_status net address path status = failure (
    text "rpc client: request "
    ++ address
    ++ path
    ++ text ": unexpected status "
    ++ net.status_line status)

-- The end of doJSON: the status and the body of a response.
unfoldable pub read_response :
    {W Resp : Type 0} → Net W → Codec Resp → Bytes → Bytes → HttpResponse → Result RpcError Resp
read_response net c address path r =
    if ltb r.status 200 || leb 400 r.status
    then err (unexpected_status net address path r.status)
    else elim (c.decode r.body) [
      | err m ↦ err (failure (text "rpc client: decode response: " ++ m))
      | ok resp ↦ ok resp
    ]

-- doJSON
unfoldable pub do_json :
    {W Req Resp : Type 0}
    → Net W
    → Codec Req
    → Codec Resp
    → Bytes
    → Bytes
    → Req
    → W
    → Result RpcError Resp × W
unfolding read_response
do_json net a b address path req w = elim (a.encode req) [
  | err m ↦ (err (failure (text "rpc client: encode payload: " ++ m)), w)
  | ok body ↦ elim (net.create address path) [
    | some m ↦ (err (failure (text "rpc client: create request: " ++ m)), w)
    | none ↦
        let r =
          net.exchange address (record { method = text "POST"; path = path; body = body }) w in
        (
          elim r.0 [
            | err e ↦ err (record e {
              message = text "rpc client: request " ++ address ++ path ++ text ": " ++ e.message;
            })
            | ok resp ↦ read_response net b address path resp
          ],
          r.1,
        )
  ]
]

module _ {W : Type 0} (j : Json) (net : Net W) where
  unfoldable pub send_heartbeat :
      Bytes → HeartbeatRequest → W → Result RpcError HeartbeatResponse × W
  unfolding do_json
  send_heartbeat address =
      do_json net j.heartbeat_request j.heartbeat_response address (text "/cluster/heartbeat")

  unfoldable pub call_join : Bytes → JoinRequest → W → Result RpcError JoinResponse × W
  unfolding do_json
  call_join address = do_json net j.join_request j.join_response address (text "/cluster/join")

  unfoldable pub call_leave : Bytes → LeaveRequest → W → Result RpcError LeaveResponse × W
  unfolding do_json
  call_leave address = do_json net j.leave_request j.leave_response address (text "/cluster/leave")

  unfoldable pub append_entries :
      Bytes → AppendEntriesRequest → W → Result RpcError AppendEntriesResponse × W
  unfolding do_json
  append_entries address =
      do_json net j.append_request j.append_response address (text "/cluster/append")

  unfoldable pub call_kv_get : Bytes → KvGetRequest → W → Result RpcError KvGetResponse × W
  unfolding do_json
  call_kv_get address =
      do_json net j.kv_get_request j.kv_get_response address (text "/cluster/kv/get")

  unfoldable pub call_kv_put : Bytes → KvPutRequest → W → Result RpcError KvPutResponse × W
  unfolding do_json
  call_kv_put address =
      do_json net j.kv_put_request j.kv_put_response address (text "/cluster/kv/put")

  unfoldable pub call_kv_delete : Bytes → KvDeleteRequest → W → Result RpcError KvDeleteResponse × W
  unfolding do_json
  call_kv_delete address =
      do_json net j.kv_delete_request j.kv_delete_response address (text "/cluster/kv/delete")

  unfoldable pub call_replica_put :
      Bytes → ReplicaPutRequest → W → Result RpcError ReplicaPutResponse × W
  unfolding do_json
  call_replica_put address =
      do_json net j.replica_put_request j.replica_put_response address (text "/cluster/replica/put")

  unfoldable pub call_replica_delete :
      Bytes → ReplicaDeleteRequest → W → Result RpcError ReplicaDeleteResponse × W
  unfolding do_json
  call_replica_delete address =
      do_json net j.replica_delete_request j.replica_delete_response address
        (text "/cluster/replica/delete")

  unfoldable pub call_replica_get :
      Bytes → ReplicaGetRequest → W → Result RpcError ReplicaGetResponse × W
  unfolding do_json
  call_replica_get address =
      do_json net j.replica_get_request j.replica_get_response address (text "/cluster/replica/get")

  unfoldable pub send_gossip : Bytes → GossipRequest → W → Result RpcError GossipResponse × W
  unfolding do_json
  send_gossip address =
      do_json net j.gossip_request j.gossip_response address (text "/cluster/gossip")

  -- The client of a KVHandler.
  abbrev pub rpc_peers : (W → Time) → Peers W
  rpc_peers clock = record {
    kv_get = call_kv_get;
    kv_put = call_kv_put;
    kv_delete = call_kv_delete;
    replica_put = call_replica_put;
    replica_delete = call_replica_delete;
    replica_get = call_replica_get;
    now = clock;
  }
