-- ===== src/Server/Messages.antt =====
-- internal/cluster/rpc/messages.go: the messages. A nil value and an empty one are told apart in
-- requests only, since an answer's is left out of its JSON form when it is empty.
use cluster_db.Prelude.{ℕ, Bool, Option, List}
use cluster_db.Prelude.Bytes.{Bytes}
use cluster_db.Storage.Time.{Time}
use cluster_db.Cluster.Manager.{MemberInfo}

pub record HeartbeatRequest : Type 0 where
  pub node_id : Bytes
  pub address : Bytes
  pub timestamp : Time

pub record HeartbeatResponse : Type 0 where
  pub accepted : Bool
  pub message : Bytes

pub record JoinRequest : Type 0 where
  pub node_id : Bytes
  pub address : Bytes

pub record JoinResponse : Type 0 where
  pub accepted : Bool
  pub message : Bytes
  pub members : List MemberInfo

pub record LeaveRequest : Type 0 where
  pub node_id : Bytes

pub record LeaveResponse : Type 0 where
  pub accepted : Bool
  pub message : Bytes

-- The term, an int64, as its two's complement.
pub record AppendEntriesRequest : Type 0 where
  pub leader_id : Bytes
  pub term : ℕ
  pub entries : List Bytes

pub record AppendEntriesResponse : Type 0 where
  pub accepted : Bool
  pub message : Bytes

pub record KvGetRequest : Type 0 where
  pub key : Bytes

pub record KvGetResponse : Type 0 where
  pub value : Bytes
  pub found : Bool
  pub error : Bytes

pub record KvPutRequest : Type 0 where
  pub key : Bytes
  pub value : Option Bytes

pub record KvPutResponse : Type 0 where
  pub success : Bool
  pub error : Bytes

pub record KvDeleteRequest : Type 0 where
  pub key : Bytes

pub record KvDeleteResponse : Type 0 where
  pub success : Bool
  pub error : Bytes

pub record ReplicaPutRequest : Type 0 where
  pub key : Bytes
  pub value : Option Bytes
  pub version : ℕ

pub record ReplicaPutResponse : Type 0 where
  pub success : Bool
  pub version : ℕ
  pub error : Bytes

pub record ReplicaDeleteRequest : Type 0 where
  pub key : Bytes
  pub version : ℕ

pub record ReplicaDeleteResponse : Type 0 where
  pub success : Bool
  pub version : ℕ
  pub error : Bytes

pub record ReplicaGetRequest : Type 0 where
  pub key : Bytes

pub record ReplicaGetResponse : Type 0 where
  pub found : Bool
  pub value : Bytes
  pub version : ℕ
  pub delete_marker : Bool
  pub error : Bytes

pub record GossipNodeInfo : Type 0 where
  pub id : Bytes
  pub address : Bytes
  pub status : Bytes
  pub version : Bytes
  pub last_heartbeat : Time

pub record GossipRequest : Type 0 where
  pub sender_id : Bytes
  pub sender_addr : Bytes
  pub nodes : List GossipNodeInfo

pub record GossipResponse : Type 0 where
  pub accepted : Bool
  pub message : Bytes
  pub nodes : List GossipNodeInfo
