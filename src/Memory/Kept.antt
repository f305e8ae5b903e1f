-- ===== src/Memory/Kept.antt =====
-- A value that is written again stays readable, whatever becomes of the write.
use cluster_db.Prelude.{
  ◌≡◌, ◌⊎◌, inl, inr, refl, ap, ◌∙◌, arith, true, false, Option, some, length, ◌==◌, Bool-cases,
}
use cluster_db.Prelude.{ok, Result-cases, ◌>>=◌}
use cluster_db.Prelude.Bytes.{Bytes, bytes_eq_refl}
use cluster_db.Prelude.Table.{lookup, insert, lookup-insert}
use cluster_db.Storage.Time.{Time}
use cluster_db.Storage.Types.{Record}
use cluster_db.Os.Disk.{Os, now}
use cluster_db.Wal.Codec.{WalRecord}
use cluster_db.Memory.Engine.{Engine, on_disk, validate_key}
use cluster_db.Memory.Lifecycle.{append_wal, maybe_checkpoint}
use cluster_db.Memory.Frame.{SameData, append_wal-IsQuiet, maybe_checkpoint-IsQuiet}
use cluster_db.Memory.Ops.{put_record, put_log, commit, put, get}
use cluster_db.Memory.Contract.{reading, ticked, put_open, put-Writes, get_open, put-WritesAtMost}

module _ (os : Os) (r : WalRecord) (update : Option Record → Record) (e : Engine) where
  abbrev logged : Engine
  logged = (append_wal os r e).1

  abbrev entered : Engine
  entered = record logged { store = insert r.key (update (lookup r.key logged.store)) logged.store }

  -- The entry of the key that is written is the one before or the new one.
  commit_own :
      (lookup r.key (commit os r update e).1.store ≡ lookup r.key e.store)
      ⊎ (lookup r.key (commit os r update e).1.store ≡ some (update (lookup r.key e.store)))
  unfolding commit ◌>>=◌
  commit_own =
      let q : SameData logged e = (append_wal-IsQuiet os r).at e in
      let p : SameData (maybe_checkpoint os false entered).1 entered =
        (maybe_checkpoint-IsQuiet os false).at entered in
      elim (Result-cases (append_wal os r e).0) [
        | inl (u, h) ↦ inr (
            ground (
              arith,
              h,
              q.store,
              p.store,
              bytes_eq_refl r.key,
              lookup-insert r.key r.key (update (lookup r.key e.store)) e.store,
            ))
        | inr (x, h) ↦ inl (ground (arith, h, q.store))
      ]

-- The engine is open and has the value of the key.
pub record Holds (key value : Bytes) (e : Engine) : Type 0 where
  pub is_open : e.is_open ≡ true
  pub held : Record
  pub found : lookup key e.store ≡ some held
  pub valued : held.value ≡ some value
  pub unmarked : held.metadata.delete_marker ≡ false

put_record_value :
    (rec : Record) (value : Bytes) (ts : Time) (old : Option Record)
    → ((put_record rec value ts old).value ≡ some value)
      × ((put_record rec value ts old).metadata.delete_marker ≡ false)
unfolding put_record
put_record_value rec value ts old = (refl, refl)

unnamed :
    (os : Os) (rec : Record) (e : Engine) → (length rec.key == 0) ≡ true → (put os rec e).1 ≡ e
unfolding put validate_key ◌>>=◌
unnamed os rec e k = ground arith

-- A Put of the value that the key has, returning or failing, leaves the key with it.
pub put-Holds :
    (os : Os) (rec : Record) (value : Bytes) (e : Engine)
    → rec.value ≡ some value
    → Holds rec.key value e
    → Holds rec.key value (put os rec e).1
unfolding on_disk now
put-Holds os rec value e v h = elim (Bool-cases (length rec.key == 0)) [
  | inl k ↦ rw (unnamed os rec e k) h
  | inr k ↦
      let w = put-WritesAtMost os rec e in
      let p = put_open os e rec value k v h.is_open in
      let new : Record = put_record rec value (reading os e) (lookup rec.key e.store) in
      let f = put_record_value rec value (reading os e) (lookup rec.key e.store) in
      elim (commit_own os (put_log rec.key value (reading os e))
        (put_record rec value (reading os e)) (ticked os e)) [
          | inl same ↦ record {
            is_open = w.is_open ∙ h.is_open;
            held = h.held;
            found = rw p (same ∙ h.found);
            valued = h.valued;
            unmarked = h.unmarked;
          }
          | inr written ↦ record {
            is_open = w.is_open ∙ h.is_open;
            held = new;
            found = rw p written;
            valued = f.0;
            unmarked = f.1;
          }
        ]
]

-- A Put that returns leaves the key with its value.
pub put-Holds_new :
    (os : Os) (rec : Record) (e : Engine)
    → (put os rec e).0 ≡ ok tt
    → (value : Bytes) × (rec.value ≡ some value)
      × ((length rec.key == 0) ≡ false)
      × Holds rec.key value (put os rec e).1
put-Holds_new os rec e h =
    let (value, v, k, o, w) = put-Writes os e rec h in
    let new : Record = put_record rec value (reading os e) (lookup rec.key e.store) in
    let f = put_record_value rec value (reading os e) (lookup rec.key e.store) in
    (
      value,
      v,
      k,
      record {
        is_open = w.is_open ∙ o;
        held = new;
        found =
            ap (lookup rec.key) w.store
            ∙ lookup-insert rec.key rec.key new e.store
            ∙ rw (bytes_eq_refl rec.key) refl;
        valued = f.0;
        unmarked = f.1;
      },
    )

-- Get of a key that is held.
pub get-Holds :
    (os : Os) (key value : Bytes) (e : Engine)
    → (length key == 0) ≡ false
    → (h : Holds key value e) → (get os key e).0 ≡ ok h.held
get-Holds os key value e k h = get_open os key e h.is_open ∙ simp (k, h.found, h.unmarked)
