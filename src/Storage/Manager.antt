-- ===== src/Storage/Manager.antt =====
-- internal/storage/manager: the engine behind an open check, and the factory.
pub mod Laws
use cluster_db.Prelude.{ℕ, Bool, true, false, not, if◌then◌else◌}
use cluster_db.Prelude.{Result, ok, err, Action, pure, fail, modify, ◌>>=◌, ◌>>◌}
use cluster_db.Prelude.Bytes.{Bytes, text, bytes_eq}
use cluster_db.Storage.Types.{Error, Record, ScanOptions}
use cluster_db.Config.Types.{StorageConfig}
use cluster_db.Os.Disk.{Os, Disk}
use cluster_db.Memory.Engine.{Engine, Config, M, new_engine}
use cluster_db.Memory.Lifecycle.{open_engine, close_engine}
use cluster_db.Memory.Scan.{Iterator}
use cluster_db.Memory.Ops.{Stats, put, get, get_raw, delete, exists, scan, stats, health}

-- The errors of the manager; `wrapped prefix e` is an error of the engine behind a text.
pub data ManagerError : Type 0 where
  manager_not_open manager_already_open unknown_engine : ManagerError
  wrapped : Bytes → Error → ManagerError

-- The configuration is read by New only, and by log lines.
pub record StorageManager : Type 0 where
  pub engine : Engine
  pub is_open : Bool

abbrev pub S : Type 0 → Type 0
S = Action ManagerError StorageManager

-- The configuration that Build hands to the engine.
unfoldable pub engine_config : StorageConfig → Config
engine_config cfg = record {
  wal_enabled = cfg.wal.enabled;
  wal_path = cfg.wal.path;
  sync_on_write = cfg.wal.sync_on_write;
  checkpoint_enabled = cfg.checkpoint_enabled;
  checkpoint_interval = cfg.checkpoint_interval;
  checkpoint_size = cfg.checkpoint_size;
  wal_max_segment_size = cfg.wal_max_segment_size;
  wal_max_segments = cfg.wal_max_segments;
}

-- Build
unfoldable pub build : StorageConfig → Disk → Result ManagerError Engine
build cfg d =
    if bytes_eq cfg.engine (text "memory")
    then ok (new_engine (engine_config cfg) d)
    else err unknown_engine

-- New
unfoldable pub new_storage : StorageConfig → Disk → Result ManagerError StorageManager
new_storage cfg d = elim (build cfg d) [
  | ok e ↦ ok (record { engine = e; is_open = false })
  | err x ↦ err x
]

-- checkOpen
unfoldable pub check_manager : S (Unit {0})
check_manager m = (if m.is_open then ok tt else err manager_not_open, m)

abbrev wrap_error : {A : Type 0} → Bytes → Result Error A → Result ManagerError A
wrap_error prefix (ok a) = ok a
wrap_error prefix (err e) = err (wrapped prefix e)

-- A call of the engine, whose error is wrapped.
unfoldable pub delegate : {A : Type 0} → Bytes → M A → S A
delegate prefix call m =
    (wrap_error prefix (call m.engine).0, record m { engine = (call m.engine).1 })

module _ (os : Os) where
  -- Manager.Open
  unfoldable pub open_storage : S (Unit {0})
  open_storage m =
      if m.is_open
      then (err manager_already_open, m)
      else (do
        delegate (text "storage manager: open engine: ") (open_engine os)
        modify (λ s. record s { is_open = true }))
          m

  -- Manager.Close
  unfoldable pub close_storage : S (Unit {0})
  close_storage m =
      if not m.is_open
      then (ok tt, m)
      else (do
        delegate (text "storage manager: close engine: ") (close_engine os)
        modify (λ s. record s { is_open = false }))
          m

  -- Manager.Put
  unfoldable pub store_put : Record → S (Unit {0})
  store_put rec = do check_manager; delegate (text "storage manager: put: ") (put os rec)

  -- Manager.Get
  unfoldable pub store_get : Bytes → S Record
  store_get key = do check_manager; delegate (text "storage manager: get: ") (get os key)

  -- Manager.GetRaw, over the engine that has a GetRaw.
  unfoldable pub store_get_raw : Bytes → S Record
  store_get_raw key = do
    check_manager
    delegate (text "storage manager: get raw: ") (get_raw os key)

  -- Manager.Delete
  unfoldable pub store_delete : Bytes → S (Unit {0})
  store_delete key = do check_manager; delegate (text "storage manager: delete: ") (delete os key)

  -- Manager.Exists
  unfoldable pub store_exists : Bytes → S Bool
  store_exists key = do check_manager; delegate (text "storage manager: exists: ") (exists os key)

  -- Manager.Scan
  unfoldable pub store_scan : ScanOptions → S Iterator
  store_scan opts = do check_manager; delegate (text "storage manager: scan: ") (scan os opts)

  -- Manager.Stats
  unfoldable pub store_stats : S Stats
  store_stats = do check_manager; delegate (text "storage manager: stats: ") (stats os)

-- Manager.Health: whether it is healthy. It does not ask whether the manager is open.
unfoldable pub store_health : StorageManager → Bool
store_health m = health m.engine
