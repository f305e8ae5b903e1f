-- ===== src/Server/Node/Tombstone.antt =====
-- What a node answers of a key that it has deleted.
use cluster_db.Prelude.{◌≡◌, ap, ◌∙◌, arith, true, Option, some, [], ok, ◌>>=◌}
use cluster_db.Prelude.Bytes.{Bytes}
use cluster_db.Storage.Types.{Error, Record}
use cluster_db.Storage.Manager.{
  StorageManager, check_manager, delegate, store_get_raw, store_delete,
}
use cluster_db.Storage.Manager.Laws.{store_delete-delete}
use cluster_db.Os.Disk.{Os}
use cluster_db.Memory.Engine.{validate_key, check_open}
use cluster_db.Memory.Ops.{get_raw, delete}
use cluster_db.Memory.Laws.{get-delete, successor_version}
use cluster_db.Prelude.Table.{lookup}
use cluster_db.Server.Messages.{ReplicaDeleteRequest}
use cluster_db.Server.Node.{serve_replica_delete, serve_replica_get, bytes_of}

module _ (os : Os) (m : StorageManager) (key : Bytes) where
  raw_found :
      (r : Record)
      → m.is_open ≡ true
      → (get_raw os key m.engine).0 ≡ ok r
      → (store_get_raw os key m).0 ≡ ok r
  unfolding store_get_raw check_manager delegate ◌>>=◌
  raw_found r o e = ground (arith, o, e)

  raw_same : (store_get_raw os key m).1 ≡ m
  unfolding store_get_raw check_manager delegate get_raw validate_key check_open ◌>>=◌
  raw_same = ground arith

module _ (detail : Error → Bytes) (os : Os) (m : StorageManager) (req : ReplicaDeleteRequest) where
  deleted :
      (serve_replica_delete detail os req (some m)).0.success ≡ true
      → ((store_delete os req.key m).0 ≡ ok tt)
        × ((serve_replica_delete detail os req (some m)).1 ≡ some (store_delete os req.key m).1)
  unfolding serve_replica_delete
  deleted e = (ground arith, ground (arith, raw_same os (store_delete os req.key m).1 req.key))

  read_raw :
      (n : StorageManager) (r : Record)
      → (store_get_raw os req.key n).0 ≡ ok r
      → (serve_replica_get detail os (record { key = req.key }) (some n)).0 ≡ record {
        found = true;
        value = bytes_of r.value;
        version = r.metadata.version;
        delete_marker = r.metadata.delete_marker;
        error = [];
      }
  unfolding serve_replica_get
  read_raw n r e = ground (arith, e)

  -- After a ReplicaDelete that a node answers with success, its ReplicaGet of the key answers that
  -- the key is found, with an empty value, the delete marker, and a version one above that of the
  -- record before (1 if there was none).
  pub serve_replica_get-serve_replica_delete :
      (serve_replica_delete detail os req (some m)).0.success ≡ true
      → (serve_replica_get detail os
          (record { key = req.key })
          (serve_replica_delete detail os req (some m)).1).0
        ≡ record {
          found = true;
          value = [];
          version = successor_version (lookup req.key m.engine.store);
          delete_marker = true;
          error = [];
        }
  serve_replica_get-serve_replica_delete e =
      let (d, q) = deleted e in
      let (o, p, s) = store_delete-delete os m req.key d in
      let (missing, raw) = get-delete os req.key m.engine p in
      ap
        (λ (x : Option StorageManager).
          (serve_replica_get detail os (record { key = req.key }) x).0)
        (q ∙ ap some s)
      ∙ read_raw _ _
          (raw_found os (record m { engine = (delete os req.key m.engine).1 }) req.key _ o raw)
