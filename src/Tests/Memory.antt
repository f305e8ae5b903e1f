-- ===== src/Tests/Memory.antt =====
-- The engine, run on a disk without faults, with its log on.
use cluster_db.Prelude.{◌+◌, ◌≡◌, refl, true, false, some, none, ok, err, [], ◌∷◌}
use cluster_db.Prelude.{◌>>=◌}
use cluster_db.Prelude.Bytes.{Bytes, text, bytes_eq}
use cluster_db.Prelude.Table.{lookup}
use cluster_db.Storage.Types.{Record, key_not_found}
use cluster_db.Storage.Time.{epoch}
use cluster_db.Os.Disk.{Os, pass, now, call, write}
use cluster_db.Wal.Words.{le32, le64}
use cluster_db.Wal.Codec.{payload, seal, encode}
use cluster_db.Wal.Writer
use cluster_db.Wal.Writer.{Writer}
use cluster_db.Memory.Engine.{Config, Engine, on_disk, check_open, validate_key}
use cluster_db.Memory.Lifecycle.{append_wal, append_to, rotate_if_needed, maybe_checkpoint}
use cluster_db.Memory.Ops.{commit, put, get, get_raw, delete, exists}
use cluster_db.Memory.Laws.{
  get-put, get-put-delete_ne, get-delete, exists-get, presence, successor_version, first_written,
}

-- A disk without faults, and a clock that goes on by one nanosecond a reading.
abbrev pub steady : Os
steady = record {
  fault = λ n. pass;
  clock = λ n. epoch + n;
  dir = λ p. text ".";
  windows = false;
  gob_encode = λ t n. [];
  gob_decode = λ b. none;
}

abbrev logging : Config
logging = record {
  wal_enabled = true;
  wal_path = text "w";
  sync_on_write = true;
  checkpoint_enabled = false;
  checkpoint_interval = 0;
  checkpoint_size = 0;
  wal_max_segment_size = 0;
  wal_max_segments = 0;
}

abbrev engine : Engine
engine = record {
  store = [];
  cfg = logging;
  wal = some (record { path = text "w"; closed = false });
  is_open = true;
  created_at = epoch;
  checkpoint_count = 0;
  replay_duration = 0;
  last_checkpoint = 0;
  maintenance = false;
  checkpoint = none;
  disk = record { files = (text "w", []) ∷ []; calls = 0; readings = 0 };
}

abbrev entry : Record
entry = record {
  key = text "k";
  value = some (text "v");
  metadata = record { ttl = 0; version = 0; created_at = 0; updated_at = 0; delete_marker = false };
}

put-entry : (put steady entry engine).0 ≡ ok tt
unfolding put commit validate_key check_open on_disk now append_wal append_to rotate_if_needed
    maybe_checkpoint ◌>>=◌ Writer.append Writer.sync Writer.write_full write call encode seal
    payload le32 le64
put-entry = refl

get-put_example :
    (value : Bytes) × (some (text "v") ≡ some value)
    × ((get steady (text "k") (put steady entry engine).1).0
        ≡ ok (record {
          key = text "k";
          value = some value;
          metadata = record {
            ttl = 0;
            version = successor_version (lookup (text "k") engine.store);
            created_at = first_written epoch (lookup (text "k") engine.store);
            updated_at = epoch;
            delete_marker = false;
          };
        }))
get-put_example = get-put steady entry engine put-entry

get-put-delete_ne_example :
    (bytes_eq (text "k") (text "j") ≡ false
      → (get steady (text "j") (put steady entry engine).1).0 ≡ (get steady (text "j") engine).0)
    × ((j : Bytes)
        → bytes_eq (text "j") j ≡ false
        → (get steady j (delete steady (text "j") engine).1).0 ≡ (get steady j engine).0)
get-put-delete_ne_example = get-put-delete_ne steady entry (text "j") engine

delete-entry : (delete steady (text "k") engine).0 ≡ ok tt
unfolding delete commit validate_key check_open on_disk now append_wal append_to rotate_if_needed
    maybe_checkpoint ◌>>=◌ Writer.append Writer.sync Writer.write_full write call encode seal
    payload le32 le64
delete-entry = refl

get-delete_example :
    ((get steady (text "k") (delete steady (text "k") engine).1).0 ≡ err key_not_found)
    × ((get_raw steady (text "k") (delete steady (text "k") engine).1).0
        ≡ ok (record {
          key = text "k";
          value = some [];
          metadata = record {
            ttl = 0;
            version = successor_version (lookup (text "k") engine.store);
            created_at = first_written epoch (lookup (text "k") engine.store);
            updated_at = epoch;
            delete_marker = true;
          };
        }))
get-delete_example = get-delete steady (text "k") engine delete-entry

exists_there : exists steady (text "k") engine ≡ (presence (get steady (text "k") engine).0, engine)
exists_there = exists-get steady (text "k") engine
