-- ===== src/Tests/Node.antt =====
-- A key that one node deletes for another.
use cluster_db.Prelude.{◌≡◌, refl, true, some, [], ◌>>=◌}
use cluster_db.Prelude.Bytes.{Bytes, text, bytes_eq}
use cluster_db.Prelude.Table.{lookup, insert}
use cluster_db.Storage.Types.{Error}
use cluster_db.Storage.Manager.{check_manager, delegate, store_delete, store_get_raw}
use cluster_db.Memory.Engine.{check_open, validate_key, on_disk}
use cluster_db.Memory.Lifecycle.{append_wal, maybe_checkpoint}
use cluster_db.Memory.Ops.{commit, delete, get_raw}
use cluster_db.Memory.Laws.{successor_version}
use cluster_db.Os.Disk.{now}
use cluster_db.Server.Node.{serve_replica_delete, serve_replica_get}
use cluster_db.Server.Node.Tombstone.{serve_replica_get-serve_replica_delete}
use cluster_db.Tests.Memory.{steady}
use cluster_db.Tests.Kv.{opened}

abbrev no_detail : Error → Bytes
no_detail e = []

x_deleted :
    (serve_replica_delete no_detail steady
      (record { key = text "x"; version = 0 })
      (some opened)).0.success
    ≡ true
unfolding serve_replica_delete store_delete store_get_raw check_manager delegate delete get_raw
    commit validate_key check_open on_disk now append_wal maybe_checkpoint ◌>>=◌ insert lookup
    bytes_eq
x_deleted = refl

serve_replica_get-serve_replica_delete_example :
    (serve_replica_get no_detail steady
      (record { key = text "x" })
      (serve_replica_delete no_detail steady
        (record { key = text "x"; version = 0 })
        (some opened)).1).0
    ≡ record {
      found = true;
      value = [];
      version = successor_version (lookup (text "x") opened.engine.store);
      delete_marker = true;
      error = [];
    }
serve_replica_get-serve_replica_delete_example =
    serve_replica_get-serve_replica_delete no_detail steady opened
      (record { key = text "x"; version = 0 }) x_deleted
