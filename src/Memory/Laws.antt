-- ===== src/Memory/Laws.antt =====
-- How the engine's I/O methods relate, as a client sees them.
use cluster_db.Prelude.{
  ℕ, ◌+◌, ◌^◌, ◌%◌, ◌≡◌, refl, ap, ◌∙◌, arith, Bool, true, false, Option, none, some,
}
use cluster_db.Prelude.{[], length, if◌then◌else◌, ◌==◌}
use cluster_db.Prelude.{Result, ok, err, ◌>>=◌}
use cluster_db.Prelude.Bytes.{Bytes, bytes_eq, bytes_eq_refl}
use cluster_db.Prelude.Table.{lookup, insert, lookup-insert}
use cluster_db.Storage.Time.{Time}
use cluster_db.Storage.Types.{Error, Record, invalid_key, key_not_found}
use cluster_db.Os.Disk.{Os}
use cluster_db.Memory.Engine.{Engine, check_open, validate_key}
use cluster_db.Memory.Ops.{live, put_record, tombstone, put, get, get_raw, delete, exists}
use cluster_db.Memory.Contract.{
  WritesAtMost, put-Writes, delete-Writes, put-WritesAtMost, delete-WritesAtMost, reading, get_open,
  get_raw_open, answer,
}

found_written :
    (os : Os) (rec : Record) (e : Engine) (value : Bytes) (m : Engine)
    → (length rec.key == 0) ≡ false
    → m.store
      ≡ insert rec.key (put_record rec value (reading os e) (lookup rec.key e.store)) e.store
    → (if length rec.key == 0 then err invalid_key else answer (live (lookup rec.key m.store)))
      ≡ ok (put_record rec value (reading os e) (lookup rec.key e.store))
unfolding put_record
found_written os rec e value m k w = ground (
  arith,
  lookup-insert rec.key rec.key (put_record rec value (reading os e) (lookup rec.key e.store))
      e.store,
  bytes_eq_refl rec.key,
)

module _ (os : Os) (key : Bytes) (e m : Engine) where
  gone :
      (length key == 0) ≡ false
      → m.store ≡ insert key (tombstone key (reading os e) (lookup key e.store)) e.store
      → (if length key == 0 then err invalid_key else answer (live (lookup key m.store)))
        ≡ err key_not_found
  unfolding tombstone
  gone k w = ground (
    arith,
    lookup-insert key key (tombstone key (reading os e) (lookup key e.store)) e.store,
    bytes_eq_refl key,
  )

  raw :
      (length key == 0) ≡ false
      → m.store ≡ insert key (tombstone key (reading os e) (lookup key e.store)) e.store
      → (if length key == 0 then err invalid_key else answer (lookup key m.store))
        ≡ ok (tombstone key (reading os e) (lookup key e.store))
  raw k w = ground (
    arith,
    lookup-insert key key (tombstone key (reading os e) (lookup key e.store)) e.store,
    bytes_eq_refl key,
  )

get-WritesAtMost :
    (os : Os) (k j : Bytes) (a b : Engine)
    → WritesAtMost a b k
    → bytes_eq k j ≡ false
    → (get os j b).0 ≡ (get os j a).0
unfolding get validate_key check_open ◌>>=◌
get-WritesAtMost os k j a b w h = ground (arith, w.is_open, w.others j h)

-- The time of the first write: that of the record before, or the present one.
abbrev pub first_written : Time → Option Record → Time
first_written ts none = ts
first_written ts (some old) = old.metadata.created_at

-- One above the version of the record before, on uint64, or 1.
abbrev pub successor_version : Option Record → ℕ
successor_version none = 1
successor_version (some old) = (old.metadata.version + 1) % 2 ^ 64

put_record_fields :
    (rec : Record) (value : Bytes) (ts : Time) (old : Option Record)
    → put_record rec value ts old ≡ record {
      key = rec.key;
      value = some value;
      metadata = record {
        ttl = rec.metadata.ttl;
        version = if rec.metadata.version == 0 then successor_version old else rec.metadata.version;
        created_at = first_written ts old;
        updated_at = ts;
        delete_marker = false;
      };
    }
unfolding put_record
put_record_fields rec value ts none = refl
put_record_fields rec value ts (some old) = refl

tombstone_fields :
    (key : Bytes) (ts : Time) (old : Option Record)
    → tombstone key ts old ≡ record {
      key = key;
      value = some [];
      metadata = record {
        ttl = 0;
        version = successor_version old;
        created_at = first_written ts old;
        updated_at = ts;
        delete_marker = true;
      };
    }
unfolding tombstone
tombstone_fields key ts none = refl
tombstone_fields key ts (some old) = refl

-- After a Put that returns, Get finds the record with the new value, the creation time of the
-- record that was there before (the time of the Put if there was none), and a version that is the
-- caller's or, for 0, one more than the old one (1 if there was none).
pub get-put :
    (os : Os) (rec : Record) (e : Engine)
    → (put os rec e).0 ≡ ok tt
    → (value : Bytes) × (rec.value ≡ some value)
      × ((get os rec.key (put os rec e).1).0
          ≡ ok (record {
            key = rec.key;
            value = some value;
            metadata = record {
              ttl = rec.metadata.ttl;
              version =
                  if rec.metadata.version == 0
                  then successor_version (lookup rec.key e.store)
                  else rec.metadata.version;
              created_at = first_written (reading os e) (lookup rec.key e.store);
              updated_at = reading os e;
              delete_marker = false;
            };
          }))
get-put os rec e h =
    let (value, v, k, o, w) = put-Writes os e rec h in
    (
      value,
      v,
      get_open os rec.key (put os rec e).1 (w.is_open ∙ o)
          ∙ found_written os rec e value (put os rec e).1 k w.store
          ∙ ap ok (put_record_fields rec value (reading os e) (lookup rec.key e.store)),
    )

-- A Put or a Delete of one key, returning or failing, changes no answer of Get for another key.
pub get-put-delete_ne :
    (os : Os) (rec : Record) (key : Bytes) (e : Engine)
    → (bytes_eq rec.key key ≡ false → (get os key (put os rec e).1).0 ≡ (get os key e).0)
      × ((j : Bytes) → bytes_eq key j ≡ false → (get os j (delete os key e).1).0 ≡ (get os j e).0)
get-put-delete_ne os rec key e = (
  λ h. get-WritesAtMost os rec.key key e _ (put-WritesAtMost os rec e) h,
  λ j h. get-WritesAtMost os key j e _ (delete-WritesAtMost os key e) h,
)

-- After a Delete that returns, Get reports a missing key, and GetRaw finds the tombstone: an empty
-- value, the delete marker, and a version one above the old record's (1 if there was none).
pub get-delete :
    (os : Os) (key : Bytes) (e : Engine)
    → (delete os key e).0 ≡ ok tt
    → ((get os key (delete os key e).1).0 ≡ err key_not_found)
      × ((get_raw os key (delete os key e).1).0
          ≡ ok (record {
            key = key;
            value = some [];
            metadata = record {
              ttl = 0;
              version = successor_version (lookup key e.store);
              created_at = first_written (reading os e) (lookup key e.store);
              updated_at = reading os e;
              delete_marker = true;
            };
          }))
get-delete os key e h =
    let (k, o, w) = delete-Writes os e key h in
    (
      get_open os key (delete os key e).1 (w.is_open ∙ o)
          ∙ gone os key e (delete os key e).1 k w.store,
      get_raw_open os key (delete os key e).1 (w.is_open ∙ o)
          ∙ raw os key e (delete os key e).1 k w.store
          ∙ ap ok (tombstone_fields key (reading os e) (lookup key e.store)),
    )

-- What Exists makes of an answer of Get.
abbrev pub presence : Result Error Record → Result Error Bool
presence (ok rec) = ok true
presence (err key_not_found) = ok false
presence (err e) = err e

-- Exists reports true exactly where Get returns a record, false where Get reports a missing key,
-- and the error of Get otherwise; neither changes the engine.
pub exists-get :
    (os : Os) (key : Bytes) (e : Engine) → exists os key e ≡ (presence (get os key e).0, e)
unfolding exists get validate_key check_open ◌>>=◌
exists-get os key e = ground arith
