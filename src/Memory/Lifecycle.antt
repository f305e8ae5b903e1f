-- ===== src/Memory/Lifecycle.antt =====
-- internal/storage/memory/engine.go: Open, Close, checkpoints, rotation and the log's append.
use cluster_db.Prelude.{◌+◌, ◌-◌, Bool, true, false, not, ◌&&◌, ◌||◌, Option, none, some}
use cluster_db.Prelude.{List, [], ◌∷◌, length, ltb, ◌==◌, if◌then◌else◌}
use cluster_db.Prelude.{ok, err, Action, pure, fail, gets, modify, attempt, when, ◌>>=◌, ◌>>◌}
use cluster_db.Prelude.Bytes.{Bytes}
use cluster_db.Prelude.Table.{Table}
use cluster_db.Storage.Time.{Time}
use cluster_db.Storage.Types.{Error, Record, empty_path, io}
use cluster_db.Os.Disk.{Os, Disk, now, call, read_file, open_append, open_truncate}
use cluster_db.Wal.Codec.{WalRecord}
use cluster_db.Wal.Writer
use cluster_db.Wal.Writer.{Writer, new_writer}
use cluster_db.Wal.Reader.{Source, is_some}
use cluster_db.Memory.Replay.{replay}
use cluster_db.Memory.Engine.{Config, Engine, M, on_disk, checkpoint_path}
use cluster_db.Memory.Files.{
  is_missing, wal_size, wal_segment_paths, rotate_files, ensure_dir, new_checkpoint, save, load,
  reset_wal,
}

-- The whole state, to read a field of it.
abbrev pub this : M Engine
this = gets (λ e. e)

module _ (os : Os) where
  -- The handle of the checkpoint, made when there is none.
  unfoldable pub checkpoint_handle : Config → Option Bytes → M Bytes
  checkpoint_handle cfg (some path) = pure path
  checkpoint_handle cfg none = do
    path ← on_disk (new_checkpoint os (checkpoint_path cfg))
    modify (λ s. record s { checkpoint = some path })
    pure path

  -- createCheckpointLocked
  unfoldable pub create_checkpoint : M (Unit {0})
  create_checkpoint = do
    e ← this
    path ← checkpoint_handle e.cfg e.checkpoint
    on_disk (save os path e.store)
    modify (λ s. record s { checkpoint_count = s.checkpoint_count + 1 })
    ts ← on_disk (now os)
    modify (λ s. record s { last_checkpoint = ts })
    when (is_some e.wal) (reset_wal os)

  -- maybeCheckpointLocked
  unfoldable pub maybe_checkpoint : Bool → M (Unit {0})
  maybe_checkpoint force = do
    e ← this
    if not e.cfg.wal_enabled || not e.cfg.checkpoint_enabled || length e.cfg.wal_path == 0
        then pure tt
        else if not force && ltb 0 e.cfg.checkpoint_size
        then (do
          size ← on_disk (wal_size os e.cfg)
          if ltb size e.cfg.checkpoint_size then pure tt else create_checkpoint)
        else create_checkpoint

  -- rotateWALIfNeededLocked
  unfoldable pub rotate_if_needed : M (Unit {0})
  rotate_if_needed = do
    e ← this
    elim e.wal [
      | none ↦ pure tt
      | some w ↦
          if length e.cfg.wal_path == 0
            || e.cfg.wal_max_segment_size == 0
            || e.cfg.wal_max_segments == 0
          then pure tt
          else do
            size ← on_disk (wal_size os e.cfg)
            if ltb size e.cfg.wal_max_segment_size then pure tt else do
              on_disk (Writer.sync os w)
              _ ← on_disk (Writer.close os w)
              modify (λ s. record s { wal = none })
              on_disk (rotate_files os e.cfg)
              on_disk (open_truncate os e.cfg.wal_path)
              modify (λ s. record s { wal = some (new_writer e.cfg.wal_path) })
    ]

  -- The rest of appendWALLocked, on the writer that the rotation leaves.
  unfoldable pub append_to : Bool → WalRecord → Option Writer → M (Unit {0})
  append_to sync_on_write rec none = pure tt
  append_to sync_on_write rec (some w) = do
    on_disk (Writer.append os w rec)
    when sync_on_write (on_disk (Writer.sync os w))

  -- appendWALLocked
  unfoldable pub append_wal : WalRecord → M (Unit {0})
  append_wal rec = do
    before ← this
    when (is_some before.wal)
        (do rotate_if_needed; e ← this; append_to e.cfg.sync_on_write rec e.wal)

  -- An open file as a stream: a read may fail before its end.
  unfoldable pub open_source : Bytes → Action Error Disk Source
  open_source b = do
    r ← attempt (call os)
    pure (record { rest = b; broken = elim r [ ok u ↦ false | err e ↦ true ] })

  -- The fuel of `replay` is enough, so `none` does not occur.
  unfoldable pub replay_file : Bytes → Table Record → Time → Action Error Disk (Table Record)
  replay_file b store since = do
    s ← open_source b
    elim (replay s store since) [
      | none ↦ fail io
      | some (ok store') ↦ pure store'
      | some (err e) ↦ fail e
    ]

  -- The loop of replayStateLocked over the segments.
  unfoldable pub replay_segments :
      List Bytes → Table Record → Time → Action Error Disk (Table Record)
  unfolding replay_file open_source
  replay_segments [] store since = pure store
  replay_segments (path ∷ paths) store since = do
    b ← read_file os path
    store' ← replay_file b store since
    call os
    replay_segments paths store' since

  -- replayStateLocked
  unfoldable pub replay_state : Config → Table Record → Time → Action Error Disk (Table Record)
  unfolding replay_segments
  replay_state cfg store since = do
    paths ← wal_segment_paths os cfg
    store' ← replay_segments paths store since
    call os
    b ← read_file os cfg.wal_path
    replay_file b store' since

  -- The records and the instant of the checkpoint; none of a missing one.
  unfoldable pub load_checkpoint : Bytes → Action Error Disk (Table Record × Time)
  load_checkpoint path = do
    r ← attempt (load os path)
    elim r [ ok p ↦ pure p | err e ↦ if is_missing e then pure ([], 0) else fail e ]

  -- openWALLocked
  unfoldable pub open_wal : M (Unit {0})
  unfolding replay_state load_checkpoint
  open_wal = do
    e ← this
    if length e.cfg.wal_path == 0 then fail empty_path else do
      on_disk (ensure_dir os e.cfg.wal_path)
      on_disk (open_append os e.cfg.wal_path)
      started ← on_disk (now os)
      path ← on_disk (new_checkpoint os (checkpoint_path e.cfg))
      modify (λ s. record s { checkpoint = some path })
      (state, since) ← on_disk (load_checkpoint path)
      store ← on_disk (replay_state e.cfg state since)
      on_disk (call os)
      finished ← on_disk (now os)
      modify (λ s. record s {
        store = store;
        wal = some (new_writer e.cfg.wal_path);
        replay_duration = finished - started;
      })

  -- Engine.Open
  unfoldable pub open_engine : M (Unit {0})
  open_engine = do
    e ← this
    if e.is_open then pure tt else do
      when e.cfg.wal_enabled open_wal
      created ← on_disk (now os)
      modify (λ s. record s {
        is_open = true;
        created_at = created;
        maintenance =
            s.maintenance
            || s.cfg.wal_enabled && s.cfg.checkpoint_enabled && ltb 0 s.cfg.checkpoint_interval;
      })

  -- One tick of the maintenance goroutine; its error is dropped.
  unfoldable pub maintenance_tick : M (Unit {0})
  maintenance_tick = do e ← this; when e.is_open (do _ ← attempt (maybe_checkpoint true); pure tt)

  -- Engine.Close
  unfoldable pub close_engine : M (Unit {0})
  close_engine = do
    e ← this
    if not e.is_open then pure tt else do
      modify (λ s. record s { is_open = false; maintenance = false })
      elim e.wal [
        | none ↦ pure tt
        | some w ↦ do
          on_disk (Writer.sync os w)
          _ ← on_disk (Writer.close os w)
          modify (λ s. record s { wal = none })
      ]
      when (e.cfg.wal_enabled && e.cfg.checkpoint_enabled)
          (do size ← on_disk (wal_size os e.cfg); when (ltb 0 size) create_checkpoint)
