-- ===== src/Memory/Ops.antt =====
-- internal/storage/memory/engine.go: the I/O methods of the engine.
use cluster_db.Prelude.{ℕ, ◌+◌, Bool, true, false, Option, none, some}
use cluster_db.Prelude.{[], ◌∷◌, length, ◌==◌, ◌%◌, ◌^◌, if◌then◌else◌}
use cluster_db.Prelude.{pure, fail, modify, ◌>>=◌, ◌>>◌}
use cluster_db.Prelude.Bytes.{Bytes}
use cluster_db.Prelude.Table.{Table, lookup, insert}
use cluster_db.Storage.Time.{Time}
use cluster_db.Storage.Types.{Record, ScanOptions, key_not_found, nil_value}
use cluster_db.Os.Disk.{Os, now}
use cluster_db.Wal.Codec.{WalRecord, operation_put, operation_delete}
use cluster_db.Wal.Reader.{is_some}
use cluster_db.Memory.Engine.{Engine, M, on_disk, check_open, validate_key}
use cluster_db.Memory.Files.{wal_size, wal_segment_paths}
use cluster_db.Memory.Lifecycle.{this, append_wal, maybe_checkpoint}
use cluster_db.Memory.Scan.{Iterator, new_iterator, collect_records}

-- `existing.Metadata.Version + 1` on uint64.
abbrev pub next_version : ℕ → ℕ
next_version v = (v + 1) % 2 ^ 64

-- The record that Put stores: CreatedAt is kept, and a version of 0 is filled in.
unfoldable pub put_record : Record → Bytes → Time → Option Record → Record
put_record rec value ts existing =
    let default : ℕ = elim existing [ none ↦ 1 | some old ↦ next_version old.metadata.version ] in
    record {
      key = rec.key;
      value = some value;
      metadata = record {
        ttl = rec.metadata.ttl;
        version = if rec.metadata.version == 0 then default else rec.metadata.version;
        created_at = elim existing [ none ↦ ts | some old ↦ old.metadata.created_at ];
        updated_at = ts;
        delete_marker = false;
      };
    }

-- The tombstone that Delete stores.
unfoldable pub tombstone : Bytes → Time → Option Record → Record
tombstone key ts existing = record {
  key = key;
  value = some [];
  metadata = record {
    ttl = 0;
    version = elim existing [ none ↦ 1 | some old ↦ next_version old.metadata.version ];
    created_at = elim existing [ none ↦ ts | some old ↦ old.metadata.created_at ];
    updated_at = ts;
    delete_marker = true;
  };
}

-- What Put and Delete append to the log.
abbrev pub put_log : Bytes → Bytes → Time → WalRecord
put_log key value ts = record {
  operation = operation_put;
  timestamp = ts;
  key = key;
  value = value;
}

abbrev pub delete_log : Bytes → Time → WalRecord
delete_log key ts = record { operation = operation_delete; timestamp = ts; key = key; value = [] }

-- Whether Get finds it.
abbrev pub live : Option Record → Option Record
live none = none
live (some rec) = if rec.metadata.delete_marker then none else some rec

module _ (os : Os) where
  -- What Put and Delete share: log the mutation, write the entry of its key, checkpoint.
  unfoldable pub commit : WalRecord → (Option Record → Record) → M (Unit {0})
  commit r update = do
    append_wal os r
    modify (λ e. record e { store = insert r.key (update (lookup r.key e.store)) e.store })
    maybe_checkpoint os false

  -- Engine.Put
  unfoldable pub put : Record → M (Unit {0})
  put rec = do
    validate_key rec.key
    elim rec.value [
      | none ↦ fail nil_value
      | some value ↦ do
        check_open
        ts ← on_disk (now os)
        commit (put_log rec.key value ts) (put_record rec value ts)
    ]

  -- Engine.Get
  unfoldable pub get : Bytes → M Record
  get key = do
    validate_key key
    check_open
    e ← this
    elim (live (lookup key e.store)) [ none ↦ fail key_not_found | some rec ↦ pure rec ]

  -- Engine.GetRaw
  unfoldable pub get_raw : Bytes → M Record
  get_raw key = do
    validate_key key
    check_open
    e ← this
    elim (lookup key e.store) [ none ↦ fail key_not_found | some rec ↦ pure rec ]

  -- Engine.Delete
  unfoldable pub delete : Bytes → M (Unit {0})
  delete key = do
    validate_key key
    check_open
    ts ← on_disk (now os)
    commit (delete_log key ts) (tombstone key ts)

  -- Engine.Exists
  unfoldable pub exists : Bytes → M Bool
  exists key = do
    validate_key key
    check_open
    e ← this
    pure (elim (live (lookup key e.store)) [ none ↦ false | some rec ↦ true ])

  -- Engine.Scan
  unfoldable pub scan : ScanOptions → M Iterator
  scan opts = do check_open; e ← this; pure (new_iterator (collect_records opts e.store))

-- Stats: the clock readings and the constant names are left out.
pub record Stats : Type 0 where
  pub keys : ℕ
  pub size : ℕ
  pub created : Time
  pub healthy : Bool
  pub checkpoint_count : ℕ
  pub wal_size : ℕ
  pub wal_segments : ℕ

-- The bytes of the keys and values of a store.
unfoldable pub stored_bytes : Table Record → ℕ
stored_bytes [] = 0
stored_bytes ((k, rec) ∷ m) =
    length rec.key + elim rec.value [ none ↦ 0 | some v ↦ length v ] + stored_bytes m

module _ (os : Os) where
  -- Engine.Stats
  unfoldable pub stats : M Stats
  stats = do
    check_open
    e ← this
    wal_bytes ← on_disk (wal_size os e.cfg)
    segments ← on_disk (wal_segment_paths os e.cfg)
    pure (record {
      keys = length e.store;
      size = stored_bytes e.store;
      created = e.created_at;
      healthy = true;
      checkpoint_count = e.checkpoint_count;
      wal_size = wal_bytes;
      wal_segments = length segments + (if is_some e.wal then 1 else 0);
    })

-- Engine.Health: whether it is healthy.
unfoldable pub health : Engine → Bool
health e = e.is_open
