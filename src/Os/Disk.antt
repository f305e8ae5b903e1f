-- ===== src/Os/Disk.antt =====
-- The disk is a table from paths to contents. Every call takes the next entry of a schedule of
-- faults and every `time.Now()` the next reading of a clock, so a theorem over all schedules and
-- clocks covers whatever the operating system does.
use cluster_db.Prelude.{ℕ, ◌+◌, Bool, true, false}
use cluster_db.Prelude.{[], ◌++◌, length, take, Option, none, some}
use cluster_db.Prelude.{leb, if◌then◌else◌}
use cluster_db.Prelude.{ok, err, Action, pure, ◌>>=◌, ◌>>◌}
use cluster_db.Prelude.Bytes.{Bytes}
use cluster_db.Prelude.Table.{Table, lookup, insert, remove}
use cluster_db.Storage.Time.{Time}
use cluster_db.Storage.Types.{Error, Record, io, not_exist}

-- One call succeeds; or (a write) takes some bytes only; or fails, a write after some bytes.
pub data Fault : Type 0 where
  pass : Fault
  short : ℕ → Fault
  broken : ℕ → Fault

-- `dir` is filepath.Dir, which depends on the platform; `windows` is the test on runtime.GOOS. The gob encoding of a snapshot is not
-- spelled out: what the engine needs of it is a hypothesis where a theorem uses it.
pub record Os : Type 0 where
  pub fault : ℕ → Fault
  pub clock : ℕ → Time
  pub dir : Bytes → Bytes
  pub windows : Bool
  pub gob_encode : Table Record → Time → Bytes
  pub gob_decode : Bytes → Option (Table Record × Time)

pub record Disk : Type 0 where
  pub files : Table Bytes
  pub calls : ℕ
  pub readings : ℕ

module _ (os : Os) where
  -- time.Now()
  unfoldable pub now : Action Error Disk Time
  now d = (ok (os.clock d.readings), record d { readings = d.readings + 1 })

  abbrev pub succeeds : Fault → Bool
  succeeds pass = true
  succeeds (short n) = true
  succeeds (broken n) = false

  -- A call with no effect on the files.
  unfoldable pub call : Action Error Disk (Unit {0})
  call d = (if succeeds (os.fault d.calls) then ok tt else err io, record d { calls = d.calls + 1 })

  -- The contents at a path, or the error of a missing file.
  unfoldable pub content : Bytes → Action Error Disk Bytes
  content path d = (elim (lookup path d.files) [ none ↦ err not_exist | some b ↦ ok b ], d)

  unfoldable pub set_files : (Table Bytes → Table Bytes) → Action Error Disk (Unit {0})
  set_files f d = (ok tt, record d { files = f d.files })

  -- os.Stat: the size.
  unfoldable pub stat : Bytes → Action Error Disk ℕ
  stat path = do call; b ← content path; pure (length b)

  -- os.Remove
  unfoldable pub unlink : Bytes → Action Error Disk (Unit {0})
  unlink path = do call; _ ← content path; set_files (remove path)

  -- os.Rename: the destination is replaced.
  unfoldable pub rename : Bytes → Bytes → Action Error Disk (Unit {0})
  rename src dst = do call; b ← content src; set_files (λ t. insert dst b (remove src t))

  -- os.Open and a read to the end
  unfoldable pub read_file : Bytes → Action Error Disk Bytes
  read_file path = do call; content path

  -- os.OpenFile with O_CREATE and O_APPEND
  unfoldable pub open_append : Bytes → Action Error Disk (Unit {0})
  open_append path = do
    call
    set_files (λ t. elim (lookup path t) [ none ↦ insert path [] t | some b ↦ t ])

  -- os.OpenFile with O_CREATE and O_TRUNC
  unfoldable pub open_truncate : Bytes → Action Error Disk (Unit {0})
  open_truncate path = do call; set_files (insert path [])

  -- How many of `len` bytes one Write call takes.
  abbrev pub accepted : Fault → ℕ → ℕ
  accepted pass len = len
  accepted (short n) len = if leb n len then n else len
  accepted (broken n) len = if leb n len then n else len

  -- One Write call at the end of an open file: the count, and whether it failed.
  unfoldable pub write : Bytes → Bytes → Disk → (ℕ × Bool) × Disk
  write path p d =
      let f = os.fault d.calls in
      let n = accepted f (length p) in
      (
        (n, succeeds f),
        record d {
          files = elim (lookup path d.files) [
            | none ↦ d.files
            | some b ↦ insert path (b ++ take n p) d.files
          ];
          calls = d.calls + 1;
        },
      )
