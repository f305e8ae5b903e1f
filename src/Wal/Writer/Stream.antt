-- ===== src/Wal/Writer/Stream.antt =====
-- What the writer leaves in its file, whatever the disk does.
use cluster_db.Prelude.{ℕ, zero, suc, ◌+◌, ◌≤◌, ◌≡◌, refl, ap, ◌∙◌, arith, true, false, not}
use cluster_db.Prelude.{[], ◌∷◌, ◌++◌, length, take, drop, length-drop, some, if◌then◌else◌, ◌==◌}
use cluster_db.Prelude.{Result, ok, err, pure, fail, Result-cases, Bool-cases, inl, inr}
use cluster_db.Prelude.Bytes.{Bytes, bytes_eq_refl}
use cluster_db.Prelude.Table.{lookup, lookup-insert}
use cluster_db.Storage.Types.{Error, io, short_write, wal_closed}
use cluster_db.Os.Disk.{Os, Disk, Fault, pass, short, broken, accepted, succeeds, write}
use cluster_db.Wal.Codec.{WalRecord, payload, seal, encode}
use cluster_db.Wal.Writer.{Writer, write_full, append}
use mathlib.Core.List.{append_assoc, append-nil}
use native.Mathlib.Nat.{zero-add, suc-add}

-- The file at `path` held `b`; the first bytes of `p` were added to it, and all of them where the
-- call returned.
pub record Appended (path b p : Bytes) (r : Result Error (Unit {0})) (d : Disk) : Type 0 where
  pub size : ℕ
  pub within : size ≤ length p
  pub content : lookup path d.files ≡ some (b ++ take size p)
  pub whole : r ≡ ok tt → size ≡ length p

accepted_le : (os : Os) (f : Fault) (n : ℕ) → accepted os f n ≤ n
accepted_le os pass n = omega arith
accepted_le os (short m) n = ground arith
accepted_le os (broken m) n = ground arith

take_nil : (n : ℕ) → take {A = ℕ} n [] ≡ []
take_nil zero = refl
take_nil (suc n) = refl

take_add : (n m : ℕ) (p : Bytes) → take n p ++ take m (drop n p) ≡ take (n + m) p
take_add zero m p = rw zero-add refl
take_add (suc n) m [] = rw suc-add (take_nil m)
take_add (suc n) m (x ∷ p) = rw suc-add (ap (λ (q : Bytes). x ∷ q) (take_add n m p))

Appended-nil :
    (path b : Bytes) (r : Result Error (Unit {0})) (d : Disk)
    → lookup path d.files ≡ some b
    → Appended path b [] r d
Appended-nil path b r d h = record {
  size = 0;
  within = omega arith;
  content = rw append-nil h;
  whole = λ e. refl;
}

module _ (os : Os) where
  content-write :
      (path p b : Bytes) (d : Disk)
      → lookup path d.files ≡ some b
      → lookup path (write os path p d).1.files
        ≡ some (b ++ take (accepted os (os.fault d.calls) (length p)) p)
  unfolding write
  content-write path p b d h = ground (
    arith,
    bytes_eq_refl path,
    lookup-insert path path (b ++ take (accepted os (os.fault d.calls) (length p)) p) d.files,
  )

  module _ (fuel : ℕ) (path : Bytes) (x : ℕ) (p : Bytes) (d : Disk) where
    -- What the first call of the loop takes, and the disk behind it.
    abbrev taken : ℕ
    taken = accepted os (os.fault d.calls) (length (x ∷ p))

    abbrev after : Disk
    after = (write os path (x ∷ p) d).1

    write_full-cons : write_full os (suc fuel) path (x ∷ p) d ≡ (
        if not (succeeds os (os.fault d.calls))
        then (err io, after)
        else if taken == 0
        then (err short_write, after)
        else write_full os fuel path (drop taken (x ∷ p)) after)
    unfolding write_full write
    write_full-cons = refl

    Appended-err :
        (b : Bytes) (e : Error)
        → lookup path d.files ≡ some b
        → Appended path b (x ∷ p) (err e) after
    Appended-err b e h = record {
      size = taken;
      within = accepted_le os (os.fault d.calls) (length (x ∷ p));
      content = content-write path (x ∷ p) b d h;
      whole = λ q. cc;
    }

    Appended-more :
        (b : Bytes) (r : Result Error (Unit {0})) (d' : Disk)
        → Appended path (b ++ take taken (x ∷ p)) (drop taken (x ∷ p)) r d'
        → Appended path b (x ∷ p) r d'
    Appended-more b r d' a = record {
      size = taken + a.size;
      within = omega (
        arith,
        a.within,
        accepted_le os (os.fault d.calls) (length (x ∷ p)),
        length-drop taken (x ∷ p),
      );
      content =
          a.content
          ∙ ap some (
              append_assoc b (take taken (x ∷ p)) (take a.size (drop taken (x ∷ p)))
              ∙ ap (λ (q : Bytes). b ++ q) (take_add taken a.size (x ∷ p)));
      whole = λ e. omega (
        arith,
        a.whole e,
        accepted_le os (os.fault d.calls) (length (x ∷ p)),
        length-drop taken (x ∷ p),
      );
    }

  write_full-Appended :
      (fuel : ℕ) (path p b : Bytes) (d : Disk)
      → lookup path d.files ≡ some b
      → length p ≤ fuel
      → Appended path b p (write_full os fuel path p d).0 (write_full os fuel path p d).1
  unfolding pure
  write_full-Appended zero path [] b d h k = unfold write_full in Appended-nil path b _ d h
  write_full-Appended (suc fuel) path [] b d h k = unfold write_full in Appended-nil path b _ d h
  write_full-Appended zero path (x ∷ p) b d h k = absurd (omega arith)
  write_full-Appended (suc fuel) path (x ∷ p) b d h k =
      elim (Bool-cases (succeeds os (os.fault d.calls))) [
        | inr bad ↦ rw (write_full-cons fuel path x p d, bad) (Appended-err fuel path x p d b io h)
        | inl fine ↦ elim (Bool-cases (taken fuel path x p d == 0)) [
          | inl z ↦
              rw (write_full-cons fuel path x p d, fine, z)
                (Appended-err fuel path x p d b short_write h)
          | inr nz ↦
              rw (write_full-cons fuel path x p d, fine, nz)
                (Appended-more fuel path x p d b _ _ (
                  write_full-Appended fuel path (drop (taken fuel path x p d) (x ∷ p))
                    (b ++ take (taken fuel path x p d) (x ∷ p)) (after fuel path x p d)
                    (content-write path (x ∷ p) b d h)
                    (ground (arith, length-drop (taken fuel path x p d) (x ∷ p)))))
        ]
      ]

  pub encode_ok : (r : WalRecord) {b : Bytes} → encode r ≡ ok b → b ≡ seal (payload r)
  unfolding encode
  encode_ok r e = ground arith

  module _ (w : Writer) (r : WalRecord) (d : Disk) where
    pub append-refused : {e : Error} → encode r ≡ err e → append os w r d ≡ (err e, d)
    unfolding append fail
    append-refused h = ground arith

    append-closed :
        {b : Bytes} → encode r ≡ ok b → w.closed ≡ true → append os w r d ≡ (err wal_closed, d)
    unfolding append fail
    append-closed h c = ground arith

    append-write_full :
        {b : Bytes}
        → encode r ≡ ok b
        → w.closed ≡ false
        → append os w r d ≡ write_full os (length b) w.path b d
    unfolding append
    append-write_full h c = ground arith

    Appended-none :
        (b p : Bytes) (e : Error) → lookup w.path d.files ≡ some b → Appended w.path b p (err e) d
    Appended-none b p e h = record {
      size = 0;
      within = omega arith;
      content = rw append-nil h;
      whole = λ q. cc;
    }

    -- Append, whatever the disk does: the file holds what it held, then the first bytes of the
    -- encoded record, and all of them if Append returns.
    pub append-Appended :
        (b : Bytes)
        → lookup w.path d.files ≡ some b
        → Appended w.path b (seal (payload r)) (append os w r d).0 (append os w r d).1
    append-Appended b h = elim (Result-cases (encode r)) [
      | inr (e, q) ↦ rw (append-refused q) (Appended-none b (seal (payload r)) e h)
      | inl (p, q) ↦ elim (Bool-cases w.closed) [
        | inl c ↦ rw (append-closed q c) (Appended-none b (seal (payload r)) wal_closed h)
        | inr c ↦ rw (append-write_full q c) (
            rw (encode_ok r q) (
              write_full-Appended (length (seal (payload r))) w.path (seal (payload r)) b d h
                (omega arith)))
      ]
    ]

    -- What Append accepts can be encoded.
    pub append-ok-encode : (append os w r d).0 ≡ ok tt → encode r ≡ ok (seal (payload r))
    append-ok-encode a = elim (Result-cases (encode r)) [
      | inr (e, q) ↦ absurd (cc (append-refused q))
      | inl (p, q) ↦ q ∙ ap ok (encode_ok r q)
    ]
