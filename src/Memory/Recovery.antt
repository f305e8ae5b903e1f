-- ===== src/Memory/Recovery.antt =====
-- What a mutation that returns has written to the log, on an engine that neither rotates its log nor
-- makes checkpoints.
pub mod Crash
pub mod Torn
use cluster_db.Prelude.{ℕ, ◌≡◌, refl, sym, ap, ◌∙◌, arith, Bool, true, false, some, none}
use cluster_db.Prelude.{◌++◌, take, List, Option}
use cluster_db.Prelude.{Result, ok, err, ◌>>=◌, Result-cases, Bool-cases, inl, inr}
use cluster_db.Prelude.Bytes.{Bytes}
use cluster_db.Prelude.Table.{lookup}
use cluster_db.Storage.Types.{Record}
use cluster_db.Os.Disk.{Os, Disk, call, now}
use cluster_db.Wal.Codec.{WalRecord, payload, seal, encode}
use cluster_db.Wal.Writer
use cluster_db.Wal.Writer.{Writer, append}
use cluster_db.Wal.Writer.Stream.{Appended, append-Appended, append-ok-encode}
use cluster_db.Memory.Engine.{Engine, on_disk}
use cluster_db.Memory.Lifecycle.{append_wal, append_to, rotate_if_needed, maybe_checkpoint}
use cluster_db.Memory.Frame.{SameData, append_wal-IsQuiet}
use cluster_db.Wal.Reader.Log.{take_all}
use cluster_db.Memory.Ops.{commit}

-- The engine's log is one file, which only grows.
pub record IsPlain (e : Engine) : Type 0 where
  pub wal : e.wal ≡ some (record { path = e.cfg.wal_path; closed = false })
  pub no_rotation : e.cfg.wal_max_segment_size ≡ 0
  pub no_checkpoint : e.cfg.checkpoint_enabled ≡ false

-- The record was appended to the log as a whole, and the log is otherwise as it was.
pub record Logs (a b : Engine) (r : WalRecord) : Type 0 where
  pub wal : b.wal ≡ a.wal
  pub cfg : b.cfg ≡ a.cfg
  pub good : encode r ≡ ok (seal (payload r))
  pub content :
      (bytes : Bytes)
      → lookup a.cfg.wal_path a.disk.files ≡ some bytes
      → lookup a.cfg.wal_path b.disk.files ≡ some (bytes ++ seal (payload r))

module _ (os : Os) (r : WalRecord) where
  append_wal-append_to :
      (e : Engine)
      → IsPlain e
      → append_wal os r e
        ≡ append_to os e.cfg.sync_on_write r
            (some (record { path = e.cfg.wal_path; closed = false }))
            e
  unfolding append_wal rotate_if_needed ◌>>=◌
  append_wal-append_to e h = ground (arith, h.wal, h.no_rotation)

  module _ (w : Writer) (b : Bool) (e : Engine) where
    append_to-wal : (append_to os b r (some w) e).1.wal ≡ e.wal
    unfolding append_to on_disk ◌>>=◌ Writer.sync call
    append_to-wal = ground arith

    append_to-cfg : (append_to os b r (some w) e).1.cfg ≡ e.cfg
    unfolding append_to on_disk ◌>>=◌ Writer.sync call
    append_to-cfg = ground arith

    append_to-files : (append_to os b r (some w) e).1.disk.files ≡ (append os w r e.disk).1.files
    unfolding append_to on_disk ◌>>=◌ Writer.sync call
    append_to-files = ground arith

    append_to-ok : (append_to os b r (some w) e).0 ≡ ok tt → (append os w r e.disk).0 ≡ ok tt
    unfolding append_to on_disk ◌>>=◌ Writer.sync call
    append_to-ok h = ground arith

    content_whole :
        (bytes : Bytes)
        → lookup w.path e.disk.files ≡ some bytes
        → (append os w r e.disk).0 ≡ ok tt
        → lookup w.path (append_to os b r (some w) e).1.disk.files
          ≡ some (bytes ++ seal (payload r))
    content_whole bytes at fine =
        let a : Appended w.path bytes (seal (payload r)) (append os w r e.disk).0
            (append os w r e.disk).1 =
          append-Appended os w r e.disk bytes at in
        ap (lookup w.path) append_to-files
        ∙ a.content
        ∙ ap (λ (q : Bytes). some (bytes ++ q)) (take_all a.size (seal (payload r)) (a.whole fine))

  commit-append_wal :
      (update : Option Record → Record) (e : Engine)
      → IsPlain e
      → (commit os r update e).0 ≡ ok tt
      → ((append_wal os r e).0 ≡ ok tt)
        × ((commit os r update e).1.wal ≡ (append_wal os r e).1.wal)
        × ((commit os r update e).1.cfg ≡ (append_wal os r e).1.cfg)
        × ((commit os r update e).1.disk.files ≡ (append_wal os r e).1.disk.files)
  unfolding commit maybe_checkpoint ◌>>=◌
  commit-append_wal update e h o =
      let q : SameData (append_wal os r e).1 e = (append_wal-IsQuiet os r).at e in
      ground (arith, q.cfg, h.no_checkpoint)

  append_wal-Logs :
      (e : Engine) → IsPlain e → (append_wal os r e).0 ≡ ok tt → Logs e (append_wal os r e).1 r
  append_wal-Logs e h o =
      let w : Writer = record { path = e.cfg.wal_path; closed = false } in
      let b : Bool = e.cfg.sync_on_write in
      let done : (append_to os b r (some w) e).0 ≡ ok tt = rw (append_wal-append_to e h) at o in
      let fine : (append os w r e.disk).0 ≡ ok tt = append_to-ok w b e done in
      rw (append_wal-append_to e h) (record {
        wal = append_to-wal w b e;
        cfg = append_to-cfg w b e;
        good = append-ok-encode os w r e.disk fine;
        content = λ bytes at. content_whole w b e bytes at fine;
      })

  -- A mutation that returns has logged its record.
  pub commit-Logs :
      (update : Option Record → Record) (e : Engine)
      → IsPlain e
      → (commit os r update e).0 ≡ ok tt
      → Logs e (commit os r update e).1 r
  commit-Logs update e h o =
      let (logged, wal, cfg, files) = commit-append_wal update e h o in
      let l : Logs e (append_wal os r e).1 r = append_wal-Logs e h logged in
      record {
        wal = wal ∙ l.wal;
        cfg = cfg ∙ l.cfg;
        good = l.good;
        content = λ bytes at. ap (λ t. lookup e.cfg.wal_path t) files ∙ l.content bytes at;
      }
