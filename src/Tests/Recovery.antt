-- ===== src/Tests/Recovery.antt =====
-- The log of an engine that stops, and the writer on a disk with short writes.
use cluster_db.Prelude.{ℕ, ◌≡◌, refl, arith, true, false, some, none, ok, [], ◌∷◌, List}
use cluster_db.Prelude.{◌==◌, if◌then◌else◌, ◌>>=◌}
use cluster_db.Prelude.Bytes.{Bytes, text, bytes_eq}
use cluster_db.Prelude.Table.{Table, lookup}
use cluster_db.Storage.Time.{epoch, IsRepresentable}
use cluster_db.Storage.Types.{Record}
use cluster_db.Os.Disk.{Os, Disk, pass, short, broken, now, call}
use cluster_db.Wal.Words.{le32, le64}
use cluster_db.Wal.Codec.{WalRecord, payload, seal, encode}
use cluster_db.Wal.Writer
use cluster_db.Wal.Writer.{Writer, append}
use cluster_db.Wal.Writer.Stream.{Appended, append-Appended}
use cluster_db.Memory.Engine.{Config, Engine, on_disk, check_open, validate_key}
use cluster_db.Memory.Lifecycle.{append_wal, append_to, rotate_if_needed, maybe_checkpoint}
use cluster_db.Memory.Ops.{commit, put, delete}
use cluster_db.Memory.Replay.{replay}
use cluster_db.Memory.Replay.Log.{effects}
use cluster_db.Memory.Recovery.Torn.{Recovered, mutate-Recovered}
use cluster_db.Memory.Recovery.Crash.{
  Mutation, write, erase, mutate, run, restorable, IsFollowed, replay-run,
}

-- The second write call takes three bytes only.
abbrev hiccup : Os
hiccup = record {
  fault = λ n. if n == 1 then short 3 else pass;
  clock = λ n. epoch;
  dir = λ p. text ".";
  windows = false;
  gob_encode = λ t n. [];
  gob_decode = λ b. none;
}

hiccup-IsRepresentable : (n : ℕ) → IsRepresentable (hiccup.clock n)
hiccup-IsRepresentable n = record { not_before = omega arith; before = omega arith }

abbrev plain_config : Config
plain_config = record {
  wal_enabled = true;
  wal_path = text "w";
  sync_on_write = false;
  checkpoint_enabled = false;
  checkpoint_interval = 0;
  checkpoint_size = 0;
  wal_max_segment_size = 0;
  wal_max_segments = 0;
}

abbrev plain_engine : Engine
plain_engine = record {
  store = [];
  cfg = plain_config;
  wal = some (record { path = text "w"; closed = false });
  is_open = true;
  created_at = epoch;
  checkpoint_count = 0;
  replay_duration = 0;
  last_checkpoint = 0;
  maintenance = false;
  checkpoint = none;
  disk = record { files = (text "w", []) ∷ []; calls = 0; readings = 0 };
}

plain_engine-IsFollowed : IsFollowed plain_engine []
unfolding effects lookup bytes_eq
plain_engine-IsFollowed = record {
  plain = record { wal = refl; no_rotation = refl; no_checkpoint = refl };
  encodable = tt;
  file = refl;
  agree = λ k. refl;
}

abbrev some_record : Record
some_record = record {
  key = text "k";
  value = some (text "v");
  metadata = record { ttl = 0; version = 0; created_at = 0; updated_at = 0; delete_marker = false };
}

abbrev session : List Mutation
session = write some_record ∷ write some_record ∷ erase (text "k") ∷ []

run-session : (run hiccup session plain_engine).0 ≡ ok tt
unfolding run mutate put delete commit validate_key check_open on_disk now append_wal append_to
    rotate_if_needed maybe_checkpoint ◌>>=◌ Writer.append Writer.sync Writer.write_full
    cluster_db.Os.Disk.write call encode seal payload le32 le64
run-session = refl

replay-run_example :
    (bytes : Bytes) × (store : Table Record) × (lookup
        (run hiccup session plain_engine).1.cfg.wal_path
        (run hiccup session plain_engine).1.disk.files
      ≡ some bytes)
    × (replay (record { rest = bytes; broken = false }) [] 0 ≡ some (ok store))
    × ((k : Bytes)
        → restorable (lookup k store)
          ≡ restorable (lookup k (run hiccup session plain_engine).1.store))
replay-run_example =
    replay-run hiccup session plain_engine [] hiccup-IsRepresentable plain_engine-IsFollowed
      run-session

abbrev log_writer : Writer
log_writer = record { path = text "w"; closed = false }

abbrev logged_record : WalRecord
logged_record = record { operation = 1; timestamp = epoch; key = text "k"; value = text "v" }

abbrev one_call_in : Disk
one_call_in = record { files = (text "w", 7 ∷ []) ∷ []; calls = 1; readings = 0 }

append-Appended_example :
    Appended
      (text "w")
      (7 ∷ [])
      (seal (payload logged_record))
      (append hiccup log_writer logged_record one_call_in).0
      (append hiccup log_writer logged_record one_call_in).1
unfolding lookup bytes_eq
append-Appended_example = append-Appended hiccup log_writer logged_record one_call_in (7 ∷ []) refl

-- The write of the engine's first append takes four bytes and fails.
abbrev failing : Os
failing = record hiccup { fault = λ n. broken 4 }

mutate-Recovered_example :
    (bytes : Bytes) × (lookup
        (text "w")
        (mutate failing (write some_record) plain_engine).1.disk.files
      ≡ some bytes)
    × Recovered [] (text "k") epoch bytes
mutate-Recovered_example =
    mutate-Recovered failing (write some_record) plain_engine [] plain_engine-IsFollowed
      (hiccup-IsRepresentable 0)
