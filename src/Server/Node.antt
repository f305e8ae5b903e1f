-- ===== src/Server/Node.antt =====
-- internal/server/bootstrap.go: the handlers of the messages that read and write the local store.
pub mod Tombstone
use cluster_db.Prelude.{ℕ, true, false, Option, none, some, [], ◌++◌}
use cluster_db.Prelude.{ok, err}
use cluster_db.Prelude.Bytes.{Bytes, text}
use cluster_db.Storage.Types.{
  Error, Record, key_not_found, engine_closed, invalid_key, nil_value, iterator_closed,
}
use cluster_db.Storage.Manager.{
  StorageManager, ManagerError, manager_not_open, manager_already_open, unknown_engine, wrapped,
  store_put, store_get, store_get_raw, store_delete,
}
use cluster_db.Os.Disk.{Os}
use cluster_db.Server.Messages.{
  KvGetRequest, KvGetResponse, KvPutRequest, KvPutResponse, KvDeleteRequest, KvDeleteResponse,
  ReplicaPutRequest, ReplicaPutResponse, ReplicaDeleteRequest, ReplicaDeleteResponse,
  ReplicaGetRequest, ReplicaGetResponse,
}

-- A record with a key, a value and a version only.
abbrev pub plain_record : Bytes → Option Bytes → ℕ → Record
plain_record key value version = record {
  key = key;
  value = value;
  metadata = record {
    ttl = 0;
    version = version;
    created_at = 0;
    updated_at = 0;
    delete_marker = false;
  };
}

abbrev pub bytes_of : Option Bytes → Bytes
bytes_of none = []
bytes_of (some v) = v

-- `detail` is the text of an error that does not come from internal/storage/errors.go.
module _ (detail : Error → Bytes) where
  unfoldable pub sentinel_text : Error → Bytes
  sentinel_text key_not_found = text "storage: key not found"
  sentinel_text engine_closed = text "storage: engine is closed"
  sentinel_text invalid_key = text "storage: invalid key"
  sentinel_text nil_value = text "storage: nil value"
  sentinel_text iterator_closed = text "storage: iterator is closed"
  sentinel_text e = detail e

  -- err.Error() of an error of the storage manager.
  unfoldable pub error_text : ManagerError → Bytes
  unfolding sentinel_text
  error_text manager_not_open = text "storage manager: not open"
  error_text manager_already_open = text "storage manager: already open"
  error_text unknown_engine = text "storage manager: unknown engine"
  error_text (wrapped prefix e) = prefix ++ sentinel_text e

  module _ (os : Os) where
    -- KVGetHandler; a missing store is `none`.
    unfoldable pub serve_kv_get :
        KvGetRequest → Option StorageManager → KvGetResponse × Option StorageManager
    serve_kv_get req none =
        (record { value = []; found = false; error = text "storage unavailable" }, none)
    serve_kv_get req (some m) =
        let r = store_get os req.key m in
        (
          elim r.0 [
            | err e ↦ record { value = []; found = false; error = error_text e }
            | ok rec ↦ record { value = bytes_of rec.value; found = true; error = [] }
          ],
          some r.1,
        )

    -- KVPutHandler
    unfoldable pub serve_kv_put :
        KvPutRequest → Option StorageManager → KvPutResponse × Option StorageManager
    serve_kv_put req none = (record { success = false; error = text "storage unavailable" }, none)
    serve_kv_put req (some m) =
        let w = store_put os (plain_record req.key req.value 0) m in
        elim w.0 [
          | err e ↦ (record { success = false; error = error_text e }, some w.1)
          | ok u ↦
              let r = store_get os req.key w.1 in
              (
                elim r.0 [
                  | err e ↦ record {
                    success = false;
                    error = text "storage write verification failed";
                  }
                  | ok rec ↦ record { success = true; error = [] }
                ],
                some r.1,
              )
        ]

    -- KVDeleteHandler
    unfoldable pub serve_kv_delete :
        KvDeleteRequest → Option StorageManager → KvDeleteResponse × Option StorageManager
    serve_kv_delete req none =
        (record { success = false; error = text "storage unavailable" }, none)
    serve_kv_delete req (some m) =
        let w = store_delete os req.key m in
        (
          elim w.0 [
            | err e ↦ record { success = false; error = error_text e }
            | ok u ↦ record { success = true; error = [] }
          ],
          some w.1,
        )

    -- ReplicaPutHandler
    unfoldable pub serve_replica_put :
        ReplicaPutRequest → Option StorageManager → ReplicaPutResponse × Option StorageManager
    serve_replica_put req none =
        (record { success = false; version = 0; error = text "storage unavailable" }, none)
    serve_replica_put req (some m) =
        let w = store_put os (plain_record req.key req.value req.version) m in
        elim w.0 [
          | err e ↦ (record { success = false; version = 0; error = error_text e }, some w.1)
          | ok u ↦
              let r = store_get_raw os req.key w.1 in
              (
                elim r.0 [
                  | err e ↦ record { success = true; version = req.version; error = [] }
                  | ok saved ↦ record {
                    success = true;
                    version = saved.metadata.version;
                    error = [];
                  }
                ],
                some r.1,
              )
        ]

    -- ReplicaDeleteHandler
    unfoldable pub serve_replica_delete :
        ReplicaDeleteRequest → Option StorageManager → ReplicaDeleteResponse × Option StorageManager
    serve_replica_delete req none =
        (record { success = false; version = 0; error = text "storage unavailable" }, none)
    serve_replica_delete req (some m) =
        let w = store_delete os req.key m in
        elim w.0 [
          | err e ↦ (record { success = false; version = 0; error = error_text e }, some w.1)
          | ok u ↦
              let r = store_get_raw os req.key w.1 in
              (
                elim r.0 [
                  | err e ↦ record { success = true; version = 0; error = [] }
                  | ok saved ↦ record {
                    success = true;
                    version = saved.metadata.version;
                    error = [];
                  }
                ],
                some r.1,
              )
        ]

    -- ReplicaGetHandler
    unfoldable pub serve_replica_get :
        ReplicaGetRequest → Option StorageManager → ReplicaGetResponse × Option StorageManager
    serve_replica_get req none = (
      record {
        found = false;
        value = [];
        version = 0;
        delete_marker = false;
        error = text "storage unavailable";
      },
      none,
    )
    serve_replica_get req (some m) =
        let r = store_get_raw os req.key m in
        (
          elim r.0 [
            | err e ↦ record {
              found = false;
              value = [];
              version = 0;
              delete_marker = false;
              error = [];
            }
            | ok rec ↦ record {
              found = true;
              value = bytes_of rec.value;
              version = rec.metadata.version;
              delete_marker = rec.metadata.delete_marker;
              error = [];
            }
          ],
          some r.1,
        )
