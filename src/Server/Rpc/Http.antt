-- ===== src/Server/Rpc/Http.antt =====
-- Requests and responses of net/http and the JSON forms of the messages, as server.go and client.go
-- use them. encoding/json is a parameter: a codec for each type of message.
use cluster_db.Prelude.{ℕ, ◌≡◌, [], Result, ok, err}
use cluster_db.Prelude.Bytes.{Bytes}
use cluster_db.Server.Messages.{
  HeartbeatRequest, HeartbeatResponse, JoinRequest, JoinResponse, LeaveRequest, LeaveResponse,
  AppendEntriesRequest, AppendEntriesResponse, KvGetRequest, KvGetResponse, KvPutRequest,
  KvPutResponse, KvDeleteRequest, KvDeleteResponse, ReplicaPutRequest, ReplicaPutResponse,
  ReplicaDeleteRequest, ReplicaDeleteResponse, ReplicaGetRequest, ReplicaGetResponse, GossipRequest,
  GossipResponse,
}

pub record HttpRequest : Type 0 where
  pub method : Bytes
  pub path : Bytes
  pub body : Bytes

pub record HttpResponse : Type 0 where
  pub status : ℕ
  pub body : Bytes

-- json.Encoder.Encode and json.Decoder.Decode at one type; an error is its text.
pub record Codec (A : Type 0) : Type 0 where
  pub encode : A → Result Bytes Bytes
  pub decode : Bytes → Result Bytes A

-- Encode accepts the message and Decode reads it back: so it is for messages whose texts are UTF-8.
abbrev pub Transfers : {A : Type 0} → Codec A → A → Type 0
Transfers c a = (b : Bytes) × (c.encode a ≡ ok b) × (c.decode b ≡ ok a)

pub record Json : Type 0 where
  pub heartbeat_request : Codec HeartbeatRequest
  pub heartbeat_response : Codec HeartbeatResponse
  pub join_request : Codec JoinRequest
  pub join_response : Codec JoinResponse
  pub leave_request : Codec LeaveRequest
  pub leave_response : Codec LeaveResponse
  pub append_request : Codec AppendEntriesRequest
  pub append_response : Codec AppendEntriesResponse
  pub kv_get_request : Codec KvGetRequest
  pub kv_get_response : Codec KvGetResponse
  pub kv_put_request : Codec KvPutRequest
  pub kv_put_response : Codec KvPutResponse
  pub kv_delete_request : Codec KvDeleteRequest
  pub kv_delete_response : Codec KvDeleteResponse
  pub replica_put_request : Codec ReplicaPutRequest
  pub replica_put_response : Codec ReplicaPutResponse
  pub replica_delete_request : Codec ReplicaDeleteRequest
  pub replica_delete_response : Codec ReplicaDeleteResponse
  pub replica_get_request : Codec ReplicaGetRequest
  pub replica_get_response : Codec ReplicaGetResponse
  pub gossip_request : Codec GossipRequest
  pub gossip_response : Codec GossipResponse

-- writeJSON: the error of the encoder is dropped.
unfoldable pub write_json : {A : Type 0} → Codec A → ℕ → A → HttpResponse
write_json c status payload = record {
  status = status;
  body = elim (c.encode payload) [ ok b ↦ b | err e ↦ [] ];
}

-- decodeJSON
abbrev pub decode_json : {A : Type 0} → Codec A → HttpRequest → Result Bytes A
decode_json c r = c.decode r.body
