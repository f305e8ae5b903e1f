-- ===== src/Server/Rpc/Endpoint.antt =====
-- internal/cluster/rpc/server.go: what the handlers of the paths have in common, the checks of the
-- requests, and the server's callbacks.
use cluster_db.Prelude.{ℕ, Option, none, some, length, ◌==◌, not, if◌then◌else◌, Result, ok, err}
use cluster_db.Prelude.Bytes.{Bytes, text, bytes_eq}
use cluster_db.Server.Messages.{
  HeartbeatRequest, HeartbeatResponse, JoinRequest, JoinResponse, LeaveRequest, LeaveResponse,
  AppendEntriesRequest, AppendEntriesResponse, KvGetRequest, KvGetResponse, KvPutRequest,
  KvPutResponse, KvDeleteRequest, KvDeleteResponse, ReplicaPutRequest, ReplicaPutResponse,
  ReplicaDeleteRequest, ReplicaDeleteResponse, ReplicaGetRequest, ReplicaGetResponse, GossipRequest,
  GossipResponse,
}
use cluster_db.Server.Rpc.Http.{HttpRequest, HttpResponse, Codec, write_json, decode_json}

-- A callback of the server over the state `W` of its node; an error is its text.
abbrev pub Callback : Type 0 → Type 0 → Type 0 → Type 0
Callback W Req Resp = Req → W → Result Bytes Resp × W

-- Server; a nil callback is `none`.
pub record RpcServer (W : Type 0) : Type 0 where
  pub heartbeat_handler : Option (Callback W HeartbeatRequest HeartbeatResponse)
  pub join_handler : Option (Callback W JoinRequest JoinResponse)
  pub leave_handler : Option (Callback W LeaveRequest LeaveResponse)
  pub append_handler : Option (Callback W AppendEntriesRequest AppendEntriesResponse)
  pub kv_get_handler : Option (Callback W KvGetRequest KvGetResponse)
  pub kv_put_handler : Option (Callback W KvPutRequest KvPutResponse)
  pub kv_delete_handler : Option (Callback W KvDeleteRequest KvDeleteResponse)
  pub replica_put_handler : Option (Callback W ReplicaPutRequest ReplicaPutResponse)
  pub replica_delete_handler : Option (Callback W ReplicaDeleteRequest ReplicaDeleteResponse)
  pub replica_get_handler : Option (Callback W ReplicaGetRequest ReplicaGetResponse)
  pub gossip_handler : Option (Callback W GossipRequest GossipResponse)

-- NewServer
abbrev pub new_server : {W : Type 0} → RpcServer W
new_server = record {
  heartbeat_handler = none;
  join_handler = none;
  leave_handler = none;
  append_handler = none;
  kv_get_handler = none;
  kv_put_handler = none;
  kv_delete_handler = none;
  replica_put_handler = none;
  replica_delete_handler = none;
  replica_get_handler = none;
  gossip_handler = none;
}

-- How one path is handled: the codecs, the response with an error's text, the check of a request
-- (the text of its error), the answer where there is no callback, and the status of an error that
-- the callback gives.
pub record Endpoint (Req Resp : Type 0) : Type 0 where
  pub request_codec : Codec Req
  pub response_codec : Codec Resp
  pub refusal : Bytes → Resp
  pub validate : Req → Option Bytes
  pub absent : ℕ × Resp
  pub failure : ℕ

module _ {W Req Resp : Type 0} (e : Endpoint Req Resp) where
  -- The end of a handler: the callback and its answer.
  unfoldable pub call_back : Option (Callback W Req Resp) → Req → W → HttpResponse × W
  call_back none req w = (write_json e.response_codec e.absent.0 e.absent.1, w)
  call_back (some h) req w =
      let r = h req w in
      (
        elim r.0 [
          | err m ↦ write_json e.response_codec e.failure (e.refusal m)
          | ok resp ↦ write_json e.response_codec 200 resp
        ],
        r.1,
      )

  -- What handleHeartbeat and the others do.
  unfoldable pub handle : Option (Callback W Req Resp) → HttpRequest → W → HttpResponse × W
  unfolding call_back
  handle h r w =
      if not (bytes_eq r.method (text "POST"))
      then (write_json e.response_codec 405 (e.refusal (text "method not allowed")), w)
      else elim (decode_json e.request_codec r) [
        | err m ↦ (write_json e.response_codec 400 (e.refusal m), w)
        | ok req ↦ elim (e.validate req) [
          | some m ↦ (write_json e.response_codec 400 (e.refusal m), w)
          | none ↦ call_back h req w
        ]
      ]

-- The validate functions: the text of the error.
unfoldable pub validate_heartbeat : HeartbeatRequest → Option Bytes
validate_heartbeat req = if length req.node_id == 0 then some (text "node_id is required") else none

unfoldable pub validate_join : JoinRequest → Option Bytes
validate_join req =
    if length req.node_id == 0
    then some (text "node_id is required")
    else if length req.address == 0
    then some (text "address is required")
    else none

unfoldable pub validate_leave : LeaveRequest → Option Bytes
validate_leave req = if length req.node_id == 0 then some (text "node_id is required") else none

unfoldable pub validate_append : AppendEntriesRequest → Option Bytes
validate_append req =
    if length req.leader_id == 0 then some (text "leader_id is required") else none

-- The test of handleReplicaGet.
unfoldable pub validate_replica_get : ReplicaGetRequest → Option Bytes
validate_replica_get req = if length req.key == 0 then some (text "key is required") else none
