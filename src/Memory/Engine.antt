-- ===== src/Memory/Engine.antt =====
-- internal/storage/memory/engine.go: the state of an engine, and the disk beneath it.
use cluster_db.Prelude.{ℕ, zero, suc, ◌+◌, ◌/◌, ◌%◌, Bool, false, Option, none}
use cluster_db.Prelude.{List, [], ◌∷◌, ◌++◌, length, ◌==◌, if◌then◌else◌}
use cluster_db.Prelude.{ok, err, Action, pure, fail}
use cluster_db.Prelude.Bytes.{Bytes, text}
use cluster_db.Prelude.Table.{Table}
use cluster_db.Storage.Time.{Time}
use cluster_db.Storage.Types.{Error, Record, engine_closed, invalid_key}
use cluster_db.Os.Disk.{Disk}
use cluster_db.Wal.Writer.{Writer}

-- Config and WALConfig. A negative size or count behaves as 0 does.
pub record Config : Type 0 where
  pub wal_enabled : Bool
  pub wal_path : Bytes
  pub sync_on_write : Bool
  pub checkpoint_enabled : Bool
  pub checkpoint_interval : ℕ
  pub checkpoint_size : ℕ
  pub wal_max_segment_size : ℕ
  pub wal_max_segments : ℕ

-- `maintenance` is set while the maintenance goroutine runs. A checkpoint handle is its path.
-- `disk` is no field in the source: it stands for the file system that the methods call.
pub record Engine : Type 0 where
  pub store : Table Record
  pub cfg : Config
  pub wal : Option Writer
  pub is_open : Bool
  pub created_at : Time
  pub checkpoint_count : ℕ
  pub replay_duration : ℕ
  pub last_checkpoint : Time
  pub maintenance : Bool
  pub checkpoint : Option Bytes
  pub disk : Disk

abbrev pub M : Type 0 → Type 0
M = Action Error Engine

-- NewEngine
unfoldable pub new_engine : Config → Disk → Engine
new_engine cfg d = record {
  store = [];
  cfg = cfg;
  wal = none;
  is_open = false;
  created_at = 0;
  checkpoint_count = 0;
  replay_duration = 0;
  last_checkpoint = 0;
  maintenance = false;
  checkpoint = none;
  disk = d;
}

-- A call of the operating system from a method.
unfoldable pub on_disk : {A : Type 0} → Action Error Disk A → M A
on_disk m e = ((m e.disk).0, record e { disk = (m e.disk).1 })

unfoldable pub check_open : M (Unit {0})
check_open e = (if e.is_open then ok tt else err engine_closed, e)

unfoldable pub validate_key : Bytes → M (Unit {0})
validate_key key = if length key == 0 then fail invalid_key else pure tt

-- The decimal digits of a number, without leading zeros, given enough fuel.
decimal : ℕ → ℕ → Bytes
decimal zero n = []
decimal (suc fuel) n = if n == 0 then [] else decimal fuel (n / 10) ++ (b'0' + n % 10) ∷ []

-- fmt's %06d
unfoldable pub six_digits : ℕ → Bytes
unfolding decimal
six_digits n =
    decimal n (n / 1000000)
    ++ (b'0' + n / 100000 % 10)
      ∷ (b'0' + n / 10000 % 10)
      ∷ (b'0' + n / 1000 % 10)
      ∷ (b'0' + n / 100 % 10)
      ∷ (b'0' + n / 10 % 10)
      ∷ (b'0' + n % 10)
      ∷ []

unfoldable pub segment_path : Config → ℕ → Bytes
segment_path cfg index = cfg.wal_path ++ (text "." ++ six_digits index)

unfoldable pub checkpoint_path : Config → Bytes
checkpoint_path cfg = if length cfg.wal_path == 0 then [] else cfg.wal_path ++ text ".checkpoint"

-- The paths of segments index, index + 1, ..., `count` of them.
unfoldable pub segment_paths_from : Config → ℕ → ℕ → List Bytes
segment_paths_from cfg index zero = []
segment_paths_from cfg index (suc count) =
    segment_path cfg index ∷ segment_paths_from cfg (index + 1) count

-- walPathsLocked
unfoldable pub wal_paths : Config → List Bytes
wal_paths cfg =
    let segments = segment_paths_from cfg 1 cfg.wal_max_segments in
    if length cfg.wal_path == 0 then segments else cfg.wal_path ∷ segments
