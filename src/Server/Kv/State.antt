-- ===== src/Server/Kv/State.antt =====
-- The state of a KVHandler, the peers that it calls, and whom it finds for a key.
use cluster_db.Prelude.{ℕ, Bool, true, not, ◌&&◌, Option, none, some, Result}
use cluster_db.Prelude.{List, [], ◌∷◌, length, ◌==◌, if◌then◌else◌}
use cluster_db.Prelude.Bytes.{Bytes, bytes_eq}
use cluster_db.Storage.Time.{Time}
use cluster_db.Storage.Manager.{StorageManager}
use cluster_db.HashRing.Ring.{Sorter}
use cluster_db.Cluster.Membership.{Node, empty_node}
use cluster_db.Cluster.Manager.{Manager, owner, owners, local_node}
use cluster_db.Cluster.Handoff.{Hints, store_hint}
use cluster_db.Server.Messages.{
  KvGetRequest, KvGetResponse, KvPutRequest, KvPutResponse, KvDeleteRequest, KvDeleteResponse,
  ReplicaPutRequest, ReplicaPutResponse, ReplicaDeleteRequest, ReplicaDeleteResponse,
  ReplicaGetRequest, ReplicaGetResponse,
}
use cluster_db.Server.Reply.{RpcError}

-- The calls of the RPC client over the state `W` of the peers and the network, each at an address.
-- `now` is what the clock reads when a hint is stored.
pub record Peers (W : Type 0) : Type 0 where
  pub kv_get : Bytes → KvGetRequest → W → Result RpcError KvGetResponse × W
  pub kv_put : Bytes → KvPutRequest → W → Result RpcError KvPutResponse × W
  pub kv_delete : Bytes → KvDeleteRequest → W → Result RpcError KvDeleteResponse × W
  pub replica_put : Bytes → ReplicaPutRequest → W → Result RpcError ReplicaPutResponse × W
  pub replica_delete : Bytes → ReplicaDeleteRequest → W → Result RpcError ReplicaDeleteResponse × W
  pub replica_get : Bytes → ReplicaGetRequest → W → Result RpcError ReplicaGetResponse × W
  pub now : W → Time

-- KVHandler, with the peers that its client reaches.
pub record KvHandler (W : Type 0) : Type 0 where
  pub store : StorageManager
  pub cluster : Option Manager
  pub hints : Hints
  pub peers : W

-- replicationFactor
unfoldable pub replication_factor : Option Manager → ℕ
replication_factor none = 1
replication_factor (some c) = if c.replication_factor == 0 then 1 else c.replication_factor

-- What handlePut, handleGet and handleDelete find first: no cluster, nobody, or the owners.
pub data Owners : Type 0 where
  no_cluster no_owners : Owners
  owned_by : Node → List Node → Owners

abbrev owners_of : Option (List Node) → Owners
owners_of none = no_owners
owners_of (some []) = no_owners
owners_of (some (n ∷ ns)) = owned_by n ns

-- localNode.ID != "" && primary.ID == localNode.ID
unfoldable pub is_here : Node → Node → Bool
is_here here n = not (length here.id == 0) && bytes_eq n.id here.id

module _ {W : Type 0} where
  unfoldable pub find_owners : Sorter → Bytes → KvHandler W → Owners × KvHandler W
  unfolding replication_factor
  find_owners s key k = elim k.cluster [
    | none ↦ (no_cluster, k)
    | some c ↦
        let r = owners s key (replication_factor k.cluster) c in
        (owners_of r.0, record k { cluster = some r.1 })
  ]

  -- LocalNode of the cluster manager.
  unfoldable pub find_local : Sorter → KvHandler W → Node × KvHandler W
  find_local s k = elim k.cluster [
    | none ↦ (empty_node, k)
    | some c ↦ let r = local_node s c in (r.0, record k { cluster = some r.1 })
  ]

  -- getRoute: the owner and whether it is the local node, or no owner.
  unfoldable pub get_route : Sorter → Bytes → KvHandler W → Option (Node × Bool) × KvHandler W
  unfolding find_local
  get_route s key k = elim k.cluster [
    | none ↦ (some (empty_node, true), k)
    | some c ↦
        let r = owner s key c in
        let k1 : KvHandler W = record k { cluster = some r.1 } in
        elim r.0 [
          | none ↦ (none, k1)
          | some o ↦ let h = find_local s k1 in (some (o, bytes_eq o.id h.0.id), h.1)
        ]
  ]

  -- StoreHint of the handoff manager.
  unfoldable pub keep_hint : Peers W → Bytes → Bytes → Bytes → Node → KvHandler W → KvHandler W
  keep_hint p operation key value n k = record k {
    hints = store_hint n.id operation key value (p.now k.peers) k.hints;
  }
