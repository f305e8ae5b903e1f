-- ===== src/Memory/Contract.antt =====
-- What the engine's I/O methods promise of its records, whatever the disk and the clock do.
use cluster_db.Prelude.{ℕ, ◌≡◌, refl, arith, true, false, Option, none, some}
use cluster_db.Prelude.{◌⊎◌, inl, inr, Bool-cases, Option-cases, length, if◌then◌else◌, ◌==◌}
use cluster_db.Prelude.{Result, ok, err, ◌>>=◌}
use cluster_db.Prelude.Bytes.{Bytes, bytes_eq}
use cluster_db.Prelude.Table.{lookup, insert, lookup-insert}
use cluster_db.Storage.Types.{Error, Record, invalid_key, key_not_found}
use cluster_db.Os.Disk.{Os, now}
use cluster_db.Wal.Codec.{WalRecord}
use cluster_db.Memory.Engine.{Engine, on_disk, check_open, validate_key}
use cluster_db.Memory.Lifecycle.{append_wal, maybe_checkpoint}
use cluster_db.Memory.Frame.{SameData, append_wal-IsQuiet, maybe_checkpoint-IsQuiet}
use cluster_db.Memory.Ops.{
  live, put_record, tombstone, put_log, delete_log, commit, put, get, get_raw, delete,
}

-- The engine `b` is `a` with one entry written, and otherwise as a client sees it.
pub record Writes (a b : Engine) (k : Bytes) (r : Record) : Type 0 where
  pub store : b.store ≡ insert k r a.store
  pub is_open : b.is_open ≡ a.is_open

module _ (os : Os) (r : WalRecord) (update : Option Record → Record) (e : Engine) where
  abbrev logged : Engine
  logged = (append_wal os r e).1

  abbrev written : Engine
  written = record logged { store = insert r.key (update (lookup r.key logged.store)) logged.store }

  commit-Writes :
      (commit os r update e).0 ≡ ok tt
      → Writes e (commit os r update e).1 r.key (update (lookup r.key e.store))
  unfolding commit ◌>>=◌
  commit-Writes h =
      let q : SameData logged e = (append_wal-IsQuiet os r).at e in
      let p : SameData (maybe_checkpoint os false written).1 written =
        (maybe_checkpoint-IsQuiet os false).at written in
      ground (arith, q.store, q.is_open, p.store, p.is_open)

-- Whatever the log and the checkpoint do, no other key is touched.
pub record WritesAtMost (a b : Engine) (k : Bytes) : Type 0 where
  pub others : (j : Bytes) → bytes_eq k j ≡ false → lookup j b.store ≡ lookup j a.store
  pub is_open : b.is_open ≡ a.is_open

commit-is_open :
    (os : Os) (r : WalRecord) (update : Option Record → Record) (e : Engine)
    → (commit os r update e).1.is_open ≡ e.is_open
unfolding commit ◌>>=◌
commit-is_open os r update e =
    let q : SameData (logged os r update e) e = (append_wal-IsQuiet os r).at e in
    let p : SameData (maybe_checkpoint os false (written os r update e)).1 (written os r update e) =
      (maybe_checkpoint-IsQuiet os false).at (written os r update e) in
    ground (arith, q.is_open, p.is_open)

commit_others :
    (os : Os) (r : WalRecord) (update : Option Record → Record) (e : Engine) (j : Bytes)
    → bytes_eq r.key j ≡ false
    → lookup j (commit os r update e).1.store ≡ lookup j e.store
unfolding commit ◌>>=◌
commit_others os r update e j h =
    let q : SameData (logged os r update e) e = (append_wal-IsQuiet os r).at e in
    let p : SameData (maybe_checkpoint os false (written os r update e)).1 (written os r update e) =
      (maybe_checkpoint-IsQuiet os false).at (written os r update e) in
    ground (
      arith,
      q.store,
      p.store,
      lookup-insert r.key j (update (lookup r.key (logged os r update e).store))
          (logged os r update e).store,
    )

commit-WritesAtMost :
    (os : Os) (r : WalRecord) (update : Option Record → Record) (e : Engine)
    → WritesAtMost e (commit os r update e).1 r.key
commit-WritesAtMost os r update e = record {
  others = commit_others os r update e;
  is_open = commit-is_open os r update e;
}

-- The instant that a method's `time.Now()` reads.
abbrev pub reading : Os → Engine → ℕ
reading os e = os.clock e.disk.readings

-- The engine after its clock was read.
abbrev pub ticked : Os → Engine → Engine
ticked os e = (on_disk (now os) e).1

module _ (os : Os) (e : Engine) where
  pub put_open :
      (rec : Record) (value : Bytes)
      → (length rec.key == 0) ≡ false
      → rec.value ≡ some value
      → e.is_open ≡ true
      → put os rec e
        ≡ commit os
            (put_log rec.key value (reading os e))
            (put_record rec value (reading os e))
            (ticked os e)
  unfolding put on_disk now validate_key check_open ◌>>=◌
  put_open rec value k v o = simp (k, v, o)

  put_guards :
      (rec : Record)
      → (put os rec e).0 ≡ ok tt
      → ((length rec.key == 0) ≡ false)
        × ((value : Bytes) × (rec.value ≡ some value))
        × (e.is_open ≡ true)
  unfolding put validate_key check_open ◌>>=◌
  put_guards rec h = ground arith

  pub delete_open :
      (key : Bytes)
      → (length key == 0) ≡ false
      → e.is_open ≡ true
      → delete os key e
        ≡ commit os (delete_log key (reading os e)) (tombstone key (reading os e)) (ticked os e)
  unfolding delete on_disk now validate_key check_open ◌>>=◌
  delete_open key k o = rw (k, o)

  delete_guards :
      (key : Bytes) → (delete os key e).0 ≡ ok tt → ((length key == 0) ≡ false) × (e.is_open ≡ true)
  unfolding delete validate_key check_open ◌>>=◌
  delete_guards key h = ground arith

  Writes-ticked :
      (m : Engine) (k : Bytes) (f : Option Record → Record)
      → Writes (ticked os e) m k (f (lookup k (ticked os e).store))
      → Writes e m k (f (lookup k e.store))
  unfolding on_disk now
  Writes-ticked m k f w = record { store = w.store; is_open = w.is_open }

  -- A Put that returns has checked the key and the value of an open engine, and has written the
  -- record that `put_record` describes.
  pub put-Writes :
      (rec : Record)
      → (put os rec e).0 ≡ ok tt
      → (value : Bytes) × (rec.value ≡ some value)
        × ((length rec.key == 0) ≡ false)
        × (e.is_open ≡ true)
        × Writes e
            (put os rec e).1
            rec.key
            (put_record rec value (reading os e) (lookup rec.key e.store))
  put-Writes rec h =
      let (k, (value, v), o) = put_guards rec h in
      (
        value,
        v,
        k,
        o,
        rw (put_open rec value k v o) (
            Writes-ticked _ rec.key (put_record rec value (reading os e)) (
              commit-Writes os (put_log rec.key value (reading os e))
                (put_record rec value (reading os e)) (ticked os e)
                (rw (put_open rec value k v o) at h))),
      )

  pub delete-Writes :
      (key : Bytes)
      → (delete os key e).0 ≡ ok tt
      → ((length key == 0) ≡ false)
        × (e.is_open ≡ true)
        × Writes e (delete os key e).1 key (tombstone key (reading os e) (lookup key e.store))
  delete-Writes key h =
      let (k, o) = delete_guards key h in
      (
        k,
        o,
        rw (delete_open key k o) (
            Writes-ticked _ key (tombstone key (reading os e)) (
              commit-Writes os (delete_log key (reading os e)) (tombstone key (reading os e))
                (ticked os e) (rw (delete_open key k o) at h))),
      )

-- What `Get` and `GetRaw` answer of an open engine.
abbrev pub answer : Option Record → Result Error Record
answer none = err key_not_found
answer (some rec) = ok rec

pub get_open :
    (os : Os) (key : Bytes) (e : Engine)
    → e.is_open ≡ true
    → (get os key e).0
      ≡ (if length key == 0 then err invalid_key else answer (live (lookup key e.store)))
unfolding get validate_key check_open ◌>>=◌
get_open os key e o = ground arith

pub get_raw_open :
    (os : Os) (key : Bytes) (e : Engine)
    → e.is_open ≡ true
    → (get_raw os key e).0
      ≡ (if length key == 0 then err invalid_key else answer (lookup key e.store))
unfolding get_raw validate_key check_open ◌>>=◌
get_raw_open os key e o = ground arith

WritesAtMost-refl : (e : Engine) (k : Bytes) → WritesAtMost e e k
WritesAtMost-refl e k = record { others = λ j h. refl; is_open = refl }

WritesAtMost-ticked :
    (os : Os) (e m : Engine) (k : Bytes) → WritesAtMost (ticked os e) m k → WritesAtMost e m k
unfolding on_disk now
WritesAtMost-ticked os e m k w = record { others = w.others; is_open = w.is_open }

-- The engine that the guards of Put let through, or the one that they refuse.
pub put_cases :
    (os : Os) (rec : Record) (e : Engine)
    → ((put os rec e).1 ≡ e)
      ⊎ ((value : Bytes) × (put os rec e
            ≡ commit os
                (put_log rec.key value (reading os e))
                (put_record rec value (reading os e))
                (ticked os e)))
unfolding put validate_key check_open on_disk now ◌>>=◌
put_cases os rec e = elim (Option-cases rec.value) [
  | inl v ↦ inl (ground arith)
  | inr (value, v) ↦ elim (Bool-cases e.is_open) [
    | inl o ↦ elim (Bool-cases (length rec.key == 0)) [
      | inl k ↦ inl (ground arith)
      | inr k ↦ inr (value, put_open os e rec value k v o)
    ]
    | inr o ↦ inl (ground arith)
  ]
]

-- A Put, whether it returns or fails, changes the record of its own key at most.
pub put-WritesAtMost :
    (os : Os) (rec : Record) (e : Engine) → WritesAtMost e (put os rec e).1 rec.key
put-WritesAtMost os rec e = elim (put_cases os rec e) [
  | inl p ↦ rw p (WritesAtMost-refl e rec.key)
  | inr (value, p) ↦ rw p (
      WritesAtMost-ticked os e _ rec.key (
        commit-WritesAtMost os (put_log rec.key value (reading os e))
          (put_record rec value (reading os e)) (ticked os e)))
]

pub delete_cases :
    (os : Os) (key : Bytes) (e : Engine)
    → ((delete os key e).1 ≡ e)
      ⊎ (delete os key e
          ≡ commit os (delete_log key (reading os e)) (tombstone key (reading os e)) (ticked os e))
unfolding delete validate_key check_open on_disk now ◌>>=◌
delete_cases os key e = elim (Bool-cases e.is_open) [
  | inl o ↦ elim (Bool-cases (length key == 0)) [
    | inl k ↦ inl (ground arith)
    | inr k ↦ inr (delete_open os e key k o)
  ]
  | inr o ↦ inl (ground arith)
]

-- A Delete, whether it returns or fails, changes the record of its own key at most.
pub delete-WritesAtMost :
    (os : Os) (key : Bytes) (e : Engine) → WritesAtMost e (delete os key e).1 key
delete-WritesAtMost os key e = elim (delete_cases os key e) [
  | inl p ↦ rw p (WritesAtMost-refl e key)
  | inr p ↦ rw p (
      WritesAtMost-ticked os e _ key (
        commit-WritesAtMost os (delete_log key (reading os e)) (tombstone key (reading os e))
          (ticked os e)))
]
