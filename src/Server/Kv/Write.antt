-- ===== src/Server/Kv/Write.antt =====
-- handlePut and handleDelete: the primary writes its store, then each replica or a hint for it.
use cluster_db.Prelude.{Bool, false, not, Option, none, some, ok, err}
use cluster_db.Prelude.{List, [], ◌∷◌, ◌++◌, length, ◌==◌, if◌then◌else◌}
use cluster_db.Prelude.Bytes.{Bytes, text}
use cluster_db.Storage.Manager.{store_put, store_get, store_delete}
use cluster_db.Os.Disk.{Os}
use cluster_db.HashRing.Ring.{Sorter}
use cluster_db.Cluster.Membership.{Node, is_alive}
use cluster_db.Cluster.Manager.{status_text}
use cluster_db.Server.Node.{plain_record}
use cluster_db.Server.Reply.{
  Reply, answered, refused, of_manager, write_storage_error, write_gateway_error, map_remote_error,
}
use cluster_db.Server.Kv.State.{
  Peers, KvHandler, no_cluster, no_owners, owned_by, find_owners, find_local, is_here, keep_hint,
}

-- "<who> node <id> is unavailable (status: <status>)"
unfoldable pub unavailable : Bytes → Node → Bytes
unavailable who n =
    who
    ++ (text " node "
        ++ (n.id ++ (text " is unavailable (status: " ++ (status_text n.status ++ text ")"))))

module _ {W : Type 0} (p : Peers W) where
  -- ReplicaPut of a replica: whether there was neither an error nor an error text.
  unfoldable pub put_call : Bytes → Bytes → Bytes → W → Bool × W
  put_call key value address w =
      let r = p.replica_put address (record { key = key; value = some value; version = 0 }) w in
      (elim r.0 [ err e ↦ false | ok a ↦ length a.error == 0 ], r.1)

  -- ReplicaDelete of a replica.
  unfoldable pub delete_call : Bytes → Bytes → W → Bool × W
  delete_call key address w =
      let r = p.replica_delete address (record { key = key; version = 0 }) w in
      (elim r.0 [ err e ↦ false | ok a ↦ length a.error == 0 ], r.1)

  module _ (call : Bytes → W → Bool × W) (operation key value : Bytes) where
    -- One round of the loops over the replicas.
    unfoldable pub replicate_one : Node → KvHandler W → KvHandler W
    replicate_one n k =
        if not (is_alive n.status)
        then keep_hint p operation key value n k
        else let r = call n.address k.peers in
          let k1 : KvHandler W = record k { peers = r.1 } in
          if r.0 then k1 else keep_hint p operation key value n k1

    unfoldable pub replicate : List Node → KvHandler W → KvHandler W
    unfolding replicate_one
    replicate [] k = k
    replicate (n ∷ ns) k = replicate ns (replicate_one n k)

  -- handlePutRemote
  unfoldable pub put_remote : Node → Bytes → Bytes → KvHandler W → Reply × KvHandler W
  put_remote n key body k =
      let r = p.kv_put n.address (record { key = key; value = some body }) k.peers in
      (
        elim r.0 [
          | err e ↦ write_gateway_error e
          | ok a ↦
              if length a.error == 0
              then answered 201 []
              else write_storage_error (map_remote_error a.error)
        ],
        record k { peers = r.1 },
      )

  -- handleDeleteRemote
  unfoldable pub delete_remote : Node → Bytes → KvHandler W → Reply × KvHandler W
  delete_remote n key k =
      let r = p.kv_delete n.address (record { key = key }) k.peers in
      (
        elim r.0 [
          | err e ↦ write_gateway_error e
          | ok a ↦
              if length a.error == 0
              then answered 204 []
              else write_storage_error (map_remote_error a.error)
        ],
        record k { peers = r.1 },
      )

  module _ (os : Os) where
    -- handlePut from the write of the local store on.
    unfoldable pub put_local : Bytes → Bytes → List Node → KvHandler W → Reply × KvHandler W
    put_local key body replicas k =
        let w = store_put os (plain_record key (some body) 0) k.store in
        elim w.0 [
          | err e ↦ (refused 500 (text "storage write failed"), record k { store = w.1 })
          | ok u ↦
              let r = store_get os key w.1 in
              let k1 : KvHandler W = record k { store = r.1 } in
              elim r.0 [
                | err e ↦ (refused 500 (text "storage write failed"), k1)
                | ok rec ↦ (
                  answered 201 [],
                  replicate (put_call key body) (text "put") key body replicas k1,
                )
              ]
        ]

    -- handleDelete from the write of the local store on.
    unfoldable pub delete_local : Bytes → List Node → KvHandler W → Reply × KvHandler W
    delete_local key replicas k =
        let w = store_delete os key k.store in
        let k1 : KvHandler W = record k { store = w.1 } in
        elim w.0 [
          | err e ↦ (write_storage_error (of_manager e), k1)
          | ok u ↦ (answered 204 [], replicate (delete_call key) (text "delete") key [] replicas k1)
        ]

    module _ (s : Sorter) where
      -- handlePut; a body that cannot be read is `none`.
      unfoldable pub handle_put : Bytes → Option Bytes → KvHandler W → Reply × KvHandler W
      unfolding put_local put_remote
      handle_put key body k =
          let f = find_owners s key k in
          elim f.0 [
            | no_owners ↦ (refused 503 (text "no owners found for key"), f.1)
            | no_cluster ↦ elim body [
              | none ↦ (refused 400 (text "invalid request body"), f.1)
              | some b ↦ put_local key b [] f.1
            ]
            | owned_by primary replicas ↦ elim body [
              | none ↦ (refused 400 (text "invalid request body"), f.1)
              | some b ↦
                  let h = find_local s f.1 in
                  if is_here h.0 primary
                  then put_local key b replicas h.1
                  else if not (is_alive primary.status)
                  then (refused 503 (unavailable (text "primary") primary), h.1)
                  else put_remote primary key b h.1
            ]
          ]

      -- handleDelete
      unfoldable pub handle_delete : Bytes → KvHandler W → Reply × KvHandler W
      unfolding delete_local delete_remote
      handle_delete key k =
          let f = find_owners s key k in
          elim f.0 [
            | no_owners ↦ (refused 503 (text "no owners found for key"), f.1)
            | no_cluster ↦ delete_local key [] f.1
            | owned_by primary replicas ↦
                let h = find_local s f.1 in
                if is_here h.0 primary
                then delete_local key replicas h.1
                else if not (is_alive primary.status)
                then (refused 503 (unavailable (text "primary") primary), h.1)
                else delete_remote primary key h.1
          ]
