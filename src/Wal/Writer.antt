-- ===== src/Wal/Writer.antt =====
-- internal/storage/wal/writer.go over a file that is open for appending (an *os.File has Sync and
-- Close, and no Flush).
pub mod Stream
use cluster_db.Prelude.{ℕ, zero, suc, Bool, true, false, not}
use cluster_db.Prelude.{[], ◌∷◌, length, drop}
use cluster_db.Prelude.{◌==◌, if◌then◌else◌}
use cluster_db.Prelude.{ok, err, Action, pure, fail, ◌>>◌}
use cluster_db.Prelude.Bytes.{Bytes}
use cluster_db.Storage.Types.{Error, wal_closed, short_write, io}
use cluster_db.Os.Disk.{Os, Disk, call, write}
use cluster_db.Wal.Codec.{WalRecord, encode}

pub record Writer : Type 0 where
  pub path : Bytes
  pub closed : Bool

unfoldable pub new_writer : Bytes → Writer
new_writer path = record { path = path; closed = false }

module _ (os : Os) where
  -- writeFull: `fuel` bounds the Write calls. Each call that does not end the loop takes a byte, so
  -- the number of bytes is enough.
  unfoldable pub write_full : ℕ → Bytes → Bytes → Action Error Disk (Unit {0})
  write_full fuel path [] = pure tt
  write_full zero path (x ∷ p) = fail short_write
  write_full (suc fuel) path (x ∷ p) = λ d.
      let ((n, fine), d') = write os path (x ∷ p) d in
      let rest = write_full fuel path (drop n (x ∷ p)) d' in
      if not fine then (err io, d') else if n == 0 then (err short_write, d') else rest

  -- Writer.Append
  unfoldable pub append : Writer → WalRecord → Action Error Disk (Unit {0})
  append w rec = elim (encode rec) [
    | err e ↦ fail e
    | ok b ↦ if w.closed then fail wal_closed else write_full (length b) w.path b
  ]

  -- Writer.Sync
  unfoldable pub sync : Writer → Action Error Disk (Unit {0})
  sync w = if w.closed then fail wal_closed else call os

  -- Writer.Close, with the writer that it leaves. After a close of the file that fails, the source's
  -- writer stays open over a closed file, whose calls all fail: some of the schedules of faults.
  unfoldable pub close : Writer → Action Error Disk Writer
  close w = if w.closed then pure w else do call os; call os; pure (record w { closed = true })
