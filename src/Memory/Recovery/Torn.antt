-- ===== src/Memory/Recovery/Torn.antt =====
-- What a mutation that fails, or is cut off, leaves in the log.
use cluster_db.Prelude.{ℕ, ◌≤◌, ◌≡◌, refl, sym, ap, ◌∙◌, arith, some, Option, inl, inr, false}
use cluster_db.Prelude.{List, [], ◌∷◌, ◌++◌, length, take, All}
use cluster_db.Prelude.{Result, ok, err, Result-cases, ◌>>=◌}
use cluster_db.Prelude.Bytes.{Bytes}
use cluster_db.Prelude.Table.{Table, lookup}
use cluster_db.Storage.Time.{Time, IsRepresentable}
use cluster_db.Storage.Types.{Error, Record, unexpected_eof}
use cluster_db.Os.Disk.{Os, Disk, now}
use cluster_db.Wal.Codec.{WalRecord, payload, seal, encode}
use cluster_db.Wal.Codec.RoundTrip.{IsEncodable, encode-ok-IsEncodable}
use cluster_db.Wal.Writer.{Writer, append}
use cluster_db.Wal.Writer.Stream.{Appended, append-Appended, append-refused, encode_ok}
use cluster_db.Wal.Reader.Log.{log_bytes, take_all}
use cluster_db.Memory.Engine.{Engine, on_disk}
use cluster_db.Memory.Lifecycle.{append_wal, maybe_checkpoint}
use cluster_db.Memory.Frame.{SameData, append_wal-IsQuiet}
use cluster_db.Memory.Ops.{commit, put_log, delete_log, put_record, tombstone}
use cluster_db.Memory.Contract.{put_cases, delete_cases, reading, ticked}
use cluster_db.Memory.Replay.{replay}
use cluster_db.Memory.Replay.Log.{effects, replay-effects, replay_torn}
use cluster_db.Memory.Recovery.{IsPlain, append_wal-append_to, append_to-files}
use cluster_db.Memory.Recovery.Crash.{
  Mutation, write, erase, mutate, IsFollowed, log_bytes-snoc, All-snoc,
}
use native.Mathlib.Decide.{dec_lt}
use mathlib.Core.List.{append-nil}

-- The key that a mutation is about.
abbrev pub key_of : Mutation → Bytes
key_of (write rec) = rec.key
key_of (erase key) = key

-- A log that held `b`: as it was, or with the first bytes of a record that can be encoded.
pub data Outcome (path b key : Bytes) (ts : Time) (files : Table Bytes) : Type 0 where
  untouched : lookup path files ≡ some b → Outcome path b key ts files
  torn :
      (r : WalRecord)
      → (n : ℕ) → r.key ≡ key
      → r.timestamp ≡ ts
      → encode r ≡ ok (seal (payload r))
      → n ≤ length (seal (payload r))
      → lookup path files ≡ some (b ++ take n (seal (payload r)))
      → Outcome path b key ts files

module _ (os : Os) where
  append-Outcome :
      (w : Writer) (r : WalRecord) (b : Bytes) (d : Disk)
      → lookup w.path d.files ≡ some b
      → Outcome w.path b r.key r.timestamp (append os w r d).1.files
  append-Outcome w r b d h = elim (Result-cases (encode r)) [
    | inr (e, q) ↦ untouched (rw (append-refused os w r d q) h)
    | inl (p, q) ↦
        let a : Appended w.path b (seal (payload r)) (append os w r d).0 (append os w r d).1 =
          append-Appended os w r d b h in
        torn r a.size refl refl (q ∙ ap ok (encode_ok os r q)) a.within a.content
  ]

  commit-files :
      (r : WalRecord) (update : Option Record → Record) (e : Engine)
      → IsPlain e
      → (commit os r update e).1.disk.files ≡ (append_wal os r e).1.disk.files
  unfolding commit maybe_checkpoint ◌>>=◌
  commit-files r update e h =
      let q : SameData (append_wal os r e).1 e = (append_wal-IsQuiet os r).at e in
      ground (arith, q.cfg, h.no_checkpoint)

  commit-Outcome :
      (r : WalRecord) (update : Option Record → Record) (e : Engine) (b : Bytes)
      → IsPlain e
      → lookup e.cfg.wal_path e.disk.files ≡ some b
      → Outcome e.cfg.wal_path b r.key r.timestamp (commit os r update e).1.disk.files
  commit-Outcome r update e b p h =
      let w : Writer = record { path = e.cfg.wal_path; closed = false } in
      let path : (commit os r update e).1.disk.files ≡ (append os w r e.disk).1.files =
        commit-files r update e p
        ∙ ap (λ (x : Result Error (Unit {0}) × Engine). x.1.disk.files)
            (append_wal-append_to os r e p)
        ∙ append_to-files os r w e.cfg.sync_on_write e in
      rw path (append-Outcome w r b e.disk h)

  mutate-Outcome :
      (m : Mutation) (e : Engine) (b : Bytes)
      → IsPlain e
      → lookup e.cfg.wal_path e.disk.files ≡ some b
      → Outcome e.cfg.wal_path b (key_of m) (reading os e) (mutate os m e).1.disk.files
  unfolding mutate on_disk now
  mutate-Outcome (write rec) e b p h = elim (put_cases os rec e) [
    | inl s ↦ untouched (rw s h)
    | inr (value, s) ↦ rw s (
        commit-Outcome (put_log rec.key value (reading os e)) (put_record rec value (reading os e))
          (ticked os e) b
          (record { wal = p.wal; no_rotation = p.no_rotation; no_checkpoint = p.no_checkpoint }) h)
  ]
  mutate-Outcome (erase key) e b p h = elim (delete_cases os key e) [
    | inl s ↦ untouched (rw s h)
    | inr s ↦ rw s (
        commit-Outcome (delete_log key (reading os e)) (tombstone key (reading os e)) (ticked os e)
          b (record { wal = p.wal; no_rotation = p.no_rotation; no_checkpoint = p.no_checkpoint })
          h)
  ]

-- What a replay makes of a log to which a mutation of `key` at `ts` was added: the records before it,
-- those and the one that it logged, or a refusal.
pub data Recovered (rs : List WalRecord) (key : Bytes) (ts : Time) (bytes : Bytes) : Type 0 where
  before :
      replay (record { rest = bytes; broken = false }) [] 0 ≡ some (ok (effects 0 rs []))
      → Recovered rs key ts bytes
  behind :
      (r : WalRecord)
      → r.key ≡ key
      → r.timestamp ≡ ts
      → replay (record { rest = bytes; broken = false }) [] 0
        ≡ some (ok (effects 0 (rs ++ r ∷ []) []))
      → Recovered rs key ts bytes
  refused :
      replay (record { rest = bytes; broken = false }) [] 0 ≡ some (err unexpected_eof)
      → Recovered rs key ts bytes

torn-Recovered :
    (rs : List WalRecord) (r : WalRecord) (n : ℕ) (key : Bytes) (ts : Time)
    → r.key ≡ key
    → r.timestamp ≡ ts
    → All IsEncodable rs
    → IsEncodable r
    → n ≤ length (seal (payload r))
    → Recovered rs key ts (log_bytes rs ++ take n (seal (payload r)))
torn-Recovered rs r n key ts p q h k l = elim (dec_lt n (length (seal (payload r)))) [
  | no full ↦ behind r p q (
      rw (take_all n (seal (payload r)) (omega (arith, l)), sym (log_bytes-snoc rs r))
        (replay-effects (rs ++ r ∷ []) 0 [] (All-snoc rs r h k)))
  | yes short ↦ elim (dec_lt 0 n) [
    | yes pos ↦ refused (replay_torn rs r n 0 [] h k pos short)
    | no zero_bytes ↦ before (rw (nothing n (omega arith), append-nil) (replay-effects rs 0 [] h))
  ]
]
  where
    nothing : (n : ℕ) → n ≡ 0 → take n (seal (payload r)) ≡ []
    nothing n e = rw e refl

recover :
    (rs : List WalRecord) (path key : Bytes) (ts : Time) (files : Table Bytes)
    → All IsEncodable rs
    → IsRepresentable ts
    → Outcome path (log_bytes rs) key ts files
    → (bytes : Bytes) × (lookup path files ≡ some bytes) × Recovered rs key ts bytes
recover rs path key ts files h t (untouched e) =
    (log_bytes rs, e, before (replay-effects rs 0 [] h))
recover rs path key ts files h t (torn r n p q g l e) = (
  log_bytes rs ++ take n (seal (payload r)),
  e,
  torn-Recovered rs r n key ts p q h (encode-ok-IsEncodable r (rw (sym q) at t) g) l,
)

-- A Put or a Delete, returning or failing in whichever way the disk makes it, leaves a log that a
-- replay either restores to the records before it, or to those with the one that it logged for its key
-- and time, or refuses as torn; it never loses or garbles an earlier record in silence. The engine
-- neither rotates its log nor makes checkpoints, and the clock is where `UnixNano` represents it.
pub mutate-Recovered :
    (os : Os) (m : Mutation) (e : Engine) (rs : List WalRecord)
    → IsFollowed e rs
    → IsRepresentable (reading os e)
    → (bytes : Bytes) × (lookup e.cfg.wal_path (mutate os m e).1.disk.files ≡ some bytes)
      × Recovered rs (key_of m) (reading os e) bytes
mutate-Recovered os m e rs f t =
    recover rs e.cfg.wal_path (key_of m) (reading os e) (mutate os m e).1.disk.files f.encodable t
      (mutate-Outcome os m e (log_bytes rs) f.plain f.file)
