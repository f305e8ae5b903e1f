-- ===== src/Memory/Files.antt =====
-- internal/storage/memory/engine.go: log files, segments and checkpoints; and
-- internal/storage/checkpoint.
use cluster_db.Prelude.{ℕ, zero, suc, ◌+◌, Bool, true, false, not, none, some}
use cluster_db.Prelude.{List, [], ◌∷◌, ◌++◌, length, ◌==◌, if◌then◌else◌}
use cluster_db.Prelude.{ok, err, Action, pure, fail, gets, modify, attempt, when, ◌>>=◌, ◌>>◌}
use cluster_db.Prelude.Bytes.{Bytes, text, bytes_eq}
use cluster_db.Prelude.Table.{Table, insert}
use cluster_db.Storage.Time.{Time}
use cluster_db.Storage.Types.{Error, Record, not_exist, empty_path, io}
use cluster_db.Os.Disk.{
  Os, Disk, now, call, stat, unlink, rename, read_file, open_truncate, set_files,
}
use cluster_db.Wal.Writer
use cluster_db.Wal.Writer.{Writer, new_writer}
use cluster_db.Memory.Engine.{Config, M, on_disk, segment_path, segment_paths_from, wal_paths}

-- os.IsNotExist
abbrev pub is_missing : Error → Bool
is_missing not_exist = true
is_missing _ = false

module _ (os : Os) where
  -- walSizeLocked: a missing file counts nothing, any other error makes the size 0.
  unfoldable pub wal_size_from : List Bytes → ℕ → Action Error Disk ℕ
  wal_size_from [] size = pure size
  wal_size_from (path ∷ paths) size = do
    info ← attempt (stat os path)
    elim info [
      | ok n ↦ wal_size_from paths (size + n)
      | err e ↦ if is_missing e then wal_size_from paths size else pure 0
    ]

  unfoldable pub wal_size : Config → Action Error Disk ℕ
  unfolding wal_size_from
  wal_size cfg = wal_size_from (wal_paths cfg) 0

  -- walSegmentPathsLocked: the segments that exist, in order of their numbers.
  unfoldable pub existing_from : List Bytes → List Bytes → Action Error Disk (List Bytes)
  existing_from [] found = pure found
  existing_from (path ∷ paths) found = do
    info ← attempt (stat os path)
    elim info [
      | ok n ↦ existing_from paths (found ++ path ∷ [])
      | err e ↦ if is_missing e then existing_from paths found else pure []
    ]

  unfoldable pub wal_segment_paths : Config → Action Error Disk (List Bytes)
  unfolding existing_from
  wal_segment_paths cfg = existing_from (segment_paths_from cfg 1 cfg.wal_max_segments) []

  -- `if err := os.Remove(path); err != nil && !os.IsNotExist(err)`
  unfoldable pub unlink_if_present : Bytes → Action Error Disk (Unit {0})
  unlink_if_present path = do
    r ← attempt (unlink os path)
    elim r [ ok u ↦ pure tt | err e ↦ if is_missing e then pure tt else fail e ]

  -- The first loop of rotateWALFilesLocked: `index` counts down to 2.
  unfoldable pub shift_segments : Config → ℕ → Action Error Disk (Unit {0})
  shift_segments cfg zero = pure tt
  shift_segments cfg (suc zero) = pure tt
  shift_segments cfg (suc (suc k)) = do
    info ← attempt (stat os (segment_path cfg (suc k)))
    elim info [
      | err e ↦ if is_missing e then shift_segments cfg (suc k) else fail e
      | ok n ↦ do
        unlink_if_present (segment_path cfg (suc (suc k)))
        rename os (segment_path cfg (suc k)) (segment_path cfg (suc (suc k)))
        shift_segments cfg (suc k)
    ]

  -- rotateWALFilesLocked
  unfoldable pub rotate_files : Config → Action Error Disk (Unit {0})
  unfolding shift_segments unlink_if_present
  rotate_files cfg = if cfg.wal_max_segments == 0 then pure tt else do
    shift_segments cfg cfg.wal_max_segments
    info ← attempt (stat os cfg.wal_path)
    elim info [
      | ok n ↦ do
        unlink_if_present (segment_path cfg 1)
        rename os cfg.wal_path (segment_path cfg 1)
      | err e ↦ if is_missing e then pure tt else fail e
    ]

  -- Checkpoint.ensureDir, and the MkdirAll of openWALLocked.
  unfoldable pub ensure_dir : Bytes → Action Error Disk (Unit {0})
  ensure_dir path = when (not (bytes_eq (os.dir path) (text "."))) (call os)

  -- checkpoint.New
  unfoldable pub new_checkpoint : Bytes → Action Error Disk Bytes
  unfolding ensure_dir
  new_checkpoint path = if length path == 0 then fail empty_path else do ensure_dir path; pure path

  -- replaceFile, of a temporary file that holds `b`.
  unfoldable pub replace_file : Bytes → Bytes → Action Error Disk (Unit {0})
  unfolding unlink_if_present
  replace_file b path = do
    when os.windows (unlink_if_present path)
    call os
    set_files os (insert path b)

  -- syncDir
  unfoldable pub sync_dir : Action Error Disk (Unit {0})
  sync_dir = when (not os.windows) (do call os; call os)

  -- Checkpoint.Save: the calls before `replace_file` create, fill, sync and close the temporary file.
  unfoldable pub save : Bytes → Table Record → Action Error Disk (Unit {0})
  unfolding ensure_dir replace_file sync_dir
  save path state = if length path == 0 then fail empty_path else do
    ensure_dir path
    ts ← now os
    call os
    call os
    call os
    call os
    replace_file (os.gob_encode state ts) path
    sync_dir

  -- Checkpoint.LoadWithTimestamp
  unfoldable pub load : Bytes → Action Error Disk (Table Record × Time)
  load path =
      if length path == 0
      then fail empty_path
      else do b ← read_file os path; elim (os.gob_decode b) [ none ↦ fail io | some p ↦ pure p ]

  -- resetWALLocked, behind its test of the writer.
  unfoldable pub reset_wal : M (Unit {0})
  reset_wal = do
    e ← gets (λ s. s)
    elim e.wal [
      | none ↦ pure tt
      | some w ↦ do _ ← on_disk (Writer.close os w); modify (λ s. record s { wal = none })
    ]
    on_disk (open_truncate os e.cfg.wal_path)
    modify (λ s. record s { wal = some (new_writer e.cfg.wal_path) })
