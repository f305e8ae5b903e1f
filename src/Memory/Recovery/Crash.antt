-- ===== src/Memory/Recovery/Crash.antt =====
-- What is left of an engine's records when it stops and its log is replayed.
use cluster_db.Prelude.{ℕ, ◌≡◌, refl, sym, ap, ◌∙◌, arith, true, false, Option, some, none}
use cluster_db.Prelude.{List, [], ◌∷◌, ◌++◌, length, All, if◌then◌else◌, ◌==◌}
use cluster_db.Prelude.{ok, pure, Result-cases, inl, inr, ◌>>=◌, ◌>>◌}
use cluster_db.Prelude.Bytes.{Bytes, bytes_eq}
use cluster_db.Prelude.Table.{Table, lookup, insert, lookup-insert, lookup-remove}
use cluster_db.Storage.Time.{Time, IsRepresentable}
use cluster_db.Storage.Types.{Record}
use cluster_db.Os.Disk.{Os, now}
use cluster_db.Wal.Codec.{WalRecord, operation_put, payload, seal}
use cluster_db.Wal.Codec.RoundTrip.{IsEncodable, encode-ok-IsEncodable}
use cluster_db.Wal.Reader.Log.{log_bytes}
use cluster_db.Memory.Engine.{Config, Engine, M, on_disk}
use cluster_db.Memory.Ops.{live, put, delete, put_log, delete_log, put_record, tombstone, commit}
use cluster_db.Memory.Contract.{put-Writes, delete-Writes, put_open, delete_open, reading, ticked}
use cluster_db.Memory.Replay.{replay, replayed_put, fresh_copy}
use cluster_db.Memory.Replay.Log.{effect, effects, replay-effects}
use cluster_db.Memory.Recovery.{IsPlain, Logs, commit-Logs}
use mathlib.Core.List.{append_assoc, append-nil}

-- What a caller of Get learns of a key that a replay can restore: the value and the time of its last
-- write.
abbrev pub restorable : Option Record → Option (Bytes × Time)
restorable o = elim (live o) [
  | none ↦ none
  | some rec ↦ some (elim rec.value [ none ↦ [] | some v ↦ v ], rec.metadata.updated_at)
]

-- The same of a log record.
abbrev pub written_by : WalRecord → Option (Bytes × Time)
written_by r = if r.operation == operation_put then some (r.value, r.timestamp) else none

-- A mutating call of a client.
pub data Mutation : Type 0 where
  write : Record → Mutation
  erase : Bytes → Mutation

unfoldable pub mutate : Os → Mutation → M (Unit {0})
mutate os (write rec) = put os rec
mutate os (erase key) = delete os key

-- A client that stops at the first error.
unfoldable pub run : Os → List Mutation → M (Unit {0})
run os [] = pure tt
run os (m ∷ ms) = mutate os m >> run os ms

-- The log of a plain engine holds the records `rs`, and replaying them restores its records.
pub record IsFollowed (e : Engine) (rs : List WalRecord) : Type 0 where
  pub plain : IsPlain e
  pub encodable : All IsEncodable rs
  pub file : lookup e.cfg.wal_path e.disk.files ≡ some (log_bytes rs)
  pub agree : (k : Bytes) → restorable (lookup k (effects 0 rs [])) ≡ restorable (lookup k e.store)

pub log_bytes-snoc :
    (rs : List WalRecord) (r : WalRecord)
    → log_bytes (rs ++ r ∷ []) ≡ log_bytes rs ++ seal (payload r)
log_bytes-snoc [] r = rw append-nil refl
log_bytes-snoc (x ∷ rs) r =
    ap (λ (q : Bytes). seal (payload x) ++ q) (log_bytes-snoc rs r)
    ∙ sym (append_assoc (seal (payload x)) (log_bytes rs) (seal (payload r)))

effects-snoc :
    (rs : List WalRecord) (r : WalRecord) (store : Table Record)
    → effects 0 (rs ++ r ∷ []) store ≡ effect 0 r (effects 0 rs store)
unfolding effects
effects-snoc [] r store = refl
effects-snoc (x ∷ rs) r store = effects-snoc rs r (effect 0 x store)

pub All-snoc :
    (rs : List WalRecord) (r : WalRecord)
    → All IsEncodable rs
    → IsEncodable r
    → All IsEncodable (rs ++ r ∷ [])
All-snoc [] r h k = (k, tt)
All-snoc (x ∷ rs) r h k = (h.0, All-snoc rs r h.1 k)

fresh_copy_bytes : (b : Bytes) → elim (fresh_copy b) [ none ↦ [] | some v ↦ v ] ≡ b
fresh_copy_bytes [] = refl
fresh_copy_bytes (x ∷ b) = refl

restorable-replayed_put :
    (r : WalRecord) (o : Option Record)
    → restorable (some (replayed_put r o)) ≡ some (r.value, r.timestamp)
unfolding replayed_put
restorable-replayed_put r o = ap (λ (v : Bytes). some (v, r.timestamp)) (fresh_copy_bytes r.value)

restorable-effect :
    (r : WalRecord) (store : Table Record) (k : Bytes)
    → restorable (lookup k (effect 0 r store))
      ≡ (if bytes_eq r.key k then written_by r else restorable (lookup k store))
unfolding effect
restorable-effect r store k = ground (
  arith,
  lookup-insert r.key k (replayed_put r (lookup r.key store)) store,
  lookup-remove r.key k store,
  restorable-replayed_put r (lookup r.key store),
)

restorable-insert :
    (key k : Bytes) (rec : Record) (store : Table Record)
    → restorable (lookup k (insert key rec store))
      ≡ (if bytes_eq key k then restorable (some rec) else restorable (lookup k store))
restorable-insert key k rec store = ground (arith, lookup-insert key k rec store)

IsPlain-Logs : (e m : Engine) (r : WalRecord) → IsPlain e → Logs e m r → IsPlain m
IsPlain-Logs e m r p l = record {
  wal =
      l.wal
      ∙ p.wal
      ∙ ap (λ (c : Config). some (record { path = c.wal_path; closed = false })) (sym l.cfg);
  no_rotation = ap (λ (c : Config). c.wal_max_segment_size) l.cfg ∙ p.no_rotation;
  no_checkpoint = ap (λ (c : Config). c.checkpoint_enabled) l.cfg ∙ p.no_checkpoint;
}

follow :
    (e m : Engine) (rs : List WalRecord) (r : WalRecord) (rec : Record)
    → IsFollowed e rs
    → Logs e m r
    → IsRepresentable r.timestamp
    → m.store ≡ insert r.key rec e.store
    → restorable (some rec) ≡ written_by r
    → IsFollowed m (rs ++ r ∷ [])
follow e m rs r rec f l t s w = record {
  plain = IsPlain-Logs e m r f.plain l;
  encodable = All-snoc rs r f.encodable (encode-ok-IsEncodable r t l.good);
  file =
      ap (λ (c : Config). lookup c.wal_path m.disk.files) l.cfg
      ∙ l.content (log_bytes rs) f.file
      ∙ ap some (sym (log_bytes-snoc rs r));
  agree = λ k.
      ap (λ (t : Table Record). restorable (lookup k t)) (effects-snoc rs r [])
      ∙ restorable-effect r (effects 0 rs []) k
      ∙ rw (f.agree k, sym w) (sym (restorable-insert r.key k rec e.store))
      ∙ ap (λ (t : Table Record). restorable (lookup k t)) (sym s);
}

module _ (os : Os) (e : Engine) where
  put-Logs :
      (rec : Record) (value : Bytes)
      → IsPlain e
      → (length rec.key == 0) ≡ false
      → rec.value ≡ some value
      → e.is_open ≡ true
      → (put os rec e).0 ≡ ok tt
      → Logs e (put os rec e).1 (put_log rec.key value (reading os e))
  unfolding on_disk now
  put-Logs rec value p k v o h =
      let c : Logs (ticked os e)
          (commit os (put_log rec.key value (reading os e)) (put_record rec value (reading os e))
            (ticked os e)).1
          (put_log rec.key value (reading os e)) =
        commit-Logs os (put_log rec.key value (reading os e)) (put_record rec value (reading os e))
          (ticked os e)
          (record { wal = p.wal; no_rotation = p.no_rotation; no_checkpoint = p.no_checkpoint })
          (rw (put_open os e rec value k v o) at h) in
      rw (put_open os e rec value k v o)
        (record { wal = c.wal; cfg = c.cfg; good = c.good; content = c.content })

  delete-Logs :
      (key : Bytes)
      → IsPlain e
      → (length key == 0) ≡ false
      → e.is_open ≡ true
      → (delete os key e).0 ≡ ok tt
      → Logs e (delete os key e).1 (delete_log key (reading os e))
  unfolding on_disk now
  delete-Logs key p k o h =
      let r : WalRecord = delete_log key (reading os e) in
      let update : Option Record → Record = tombstone key (reading os e) in
      let c : Logs (ticked os e) (commit os r update (ticked os e)).1 r =
        commit-Logs os r update (ticked os e)
          (record { wal = p.wal; no_rotation = p.no_rotation; no_checkpoint = p.no_checkpoint })
          (rw (delete_open os e key k o) at h) in
      rw (delete_open os e key k o)
        (record { wal = c.wal; cfg = c.cfg; good = c.good; content = c.content })

  restorable-put_record :
      (rec : Record) (value : Bytes) (ts : Time) (old : Option Record)
      → restorable (some (put_record rec value ts old)) ≡ written_by (put_log rec.key value ts)
  unfolding put_record
  restorable-put_record rec value ts old = refl

  restorable-tombstone :
      (key : Bytes) (ts : Time) (old : Option Record)
      → restorable (some (tombstone key ts old)) ≡ written_by (delete_log key ts)
  unfolding tombstone
  restorable-tombstone key ts old = refl

  mutate-IsFollowed :
      (m : Mutation) (rs : List WalRecord)
      → IsFollowed e rs
      → IsRepresentable (reading os e)
      → (mutate os m e).0 ≡ ok tt
      → (r : WalRecord) × IsFollowed (mutate os m e).1 (rs ++ r ∷ [])
  unfolding mutate
  mutate-IsFollowed (write rec) rs f t h =
      let (value, v, k, o, w) = put-Writes os e rec h in
      (
        put_log rec.key value (reading os e),
        follow e (put os rec e).1 rs (put_log rec.key value (reading os e)) _ f
            (put-Logs rec value f.plain k v o h) t w.store
            (restorable-put_record rec value (reading os e) (lookup rec.key e.store)),
      )
  mutate-IsFollowed (erase key) rs f t h =
      let (k, o, w) = delete-Writes os e key h in
      (
        delete_log key (reading os e),
        follow e (delete os key e).1 rs (delete_log key (reading os e)) _ f
            (delete-Logs key f.plain k o h) t w.store
            (restorable-tombstone key (reading os e) (lookup key e.store)),
      )

  run-cons :
      (m : Mutation) (ms : List Mutation)
      → (run os (m ∷ ms) e).0 ≡ ok tt
      → ((mutate os m e).0 ≡ ok tt) × (run os (m ∷ ms) e ≡ run os ms (mutate os m e).1)
  unfolding run ◌>>=◌
  run-cons m ms h = elim (Result-cases (mutate os m e).0) [
    | inl (u, q) ↦ (q, rw q refl)
    | inr (x, q) ↦ absurd (cc (rw q at h))
  ]

run-IsFollowed :
    (os : Os) (ms : List Mutation) (e : Engine) (rs : List WalRecord)
    → ((n : ℕ) → IsRepresentable (os.clock n))
    → IsFollowed e rs
    → (run os ms e).0 ≡ ok tt
    → (all : List WalRecord) × IsFollowed (run os ms e).1 all
unfolding pure
run-IsFollowed os [] e rs t f h = (rs, unfold run in f)
run-IsFollowed os (m ∷ ms) e rs t f h =
    let (done, rest) = run-cons os e m ms h in
    let (r, g) = mutate-IsFollowed os e m rs f (t e.disk.readings) done in
    rw rest (run-IsFollowed os ms (mutate os m e).1 (rs ++ r ∷ []) t g (rw rest at h))

-- What Put and Delete have returned from survives the process: on an engine with its log on and
-- neither rotation nor checkpoints, after any sequence of calls that all returned, replaying the log
-- file into an empty store ends without an error, and the store that it makes has the same keys with
-- the same values and times of the last write. The clock must stay where `UnixNano` represents it.
pub replay-run :
    (os : Os) (ms : List Mutation) (e : Engine) (rs : List WalRecord)
    → ((n : ℕ) → IsRepresentable (os.clock n))
    → IsFollowed e rs
    → (run os ms e).0 ≡ ok tt
    → (bytes : Bytes) × (store : Table Record) × (lookup
          (run os ms e).1.cfg.wal_path
          (run os ms e).1.disk.files
        ≡ some bytes)
      × (replay (record { rest = bytes; broken = false }) [] 0 ≡ some (ok store))
      × ((k : Bytes) → restorable (lookup k store) ≡ restorable (lookup k (run os ms e).1.store))
replay-run os ms e rs t f h =
    let (all, g) = run-IsFollowed os ms e rs t f h in
    (log_bytes all, effects 0 all [], g.file, replay-effects all 0 [] g.encodable, g.agree)
