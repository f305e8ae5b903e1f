-- ===== src/Wal/Reader/Log.antt =====
-- Reading back a log of encoded records, whole or torn.
use cluster_db.Prelude.{ℕ, zero, suc, ◌+◌, ◌≤◌, ◌<◌, ◌≡◌, refl, ap, ◌∙◌, arith}
use cluster_db.Prelude.{Bool, true, false, List, [], ◌∷◌, ◌++◌, length, take, drop}
use cluster_db.Prelude.{length-take, length-drop, length-append, take-append-drop}
use cluster_db.Prelude.{none, some}
use native.Mathlib.Decide.{dec_lt}
use cluster_db.Prelude.Bytes.{Bytes}
use cluster_db.Storage.Types.{unexpected_eof}
use cluster_db.Wal.Words.{byte_at, le32, le64}
use cluster_db.Wal.Codec.{WalRecord, slice, payload, seal}
use cluster_db.Wal.Codec.RoundTrip.{
  IsEncodable, decode-seal, header_magic, header_version, header_operation, header_key_len,
  header_value_len, header_size, length-seal,
}
use cluster_db.Wal.Reader.{Source, full, cut, read_full, Reader, next, read_record, read_body, stop}

-- The log that appending the records writes.
abbrev pub log_bytes : List WalRecord → Bytes
log_bytes [] = []
log_bytes (r ∷ rs) = seal (payload r) ++ log_bytes rs

-- A reader that may still read, over the given bytes.
pub record IsReading (r : Reader) (b : Bytes) : Type 0 where
  pub at : r.source ≡ record { rest = b; broken = false }
  pub is_open : r.closed ≡ false
  pub more : r.finished ≡ false
  pub good : r.error ≡ none

take_within : (n : ℕ) (a b : Bytes) → n ≤ length a → take n (a ++ b) ≡ take n a
take_within zero a b h = refl
take_within (suc n) [] b h = absurd (omega arith)
take_within (suc n) (x ∷ a) b h = ap (λ (t : Bytes). x ∷ t) (take_within n a b (omega arith))

drop_within : (n : ℕ) (a b : Bytes) → n ≤ length a → drop n (a ++ b) ≡ drop n a ++ b
drop_within zero a b h = refl
drop_within (suc n) [] b h = absurd (omega arith)
drop_within (suc n) (x ∷ a) b h = drop_within n a b (omega arith)

pub take_all : (n : ℕ) (a : Bytes) → n ≡ length a → take n a ≡ a
take_all zero [] h = refl
take_all zero (x ∷ a) h = absurd (omega arith)
take_all (suc n) [] h = refl
take_all (suc n) (x ∷ a) h = ap (λ (t : Bytes). x ∷ t) (take_all n a (omega arith))

drop_all : (n : ℕ) (a : Bytes) → n ≡ length a → drop n a ≡ []
drop_all zero [] h = refl
drop_all zero (x ∷ a) h = absurd (omega arith)
drop_all (suc n) [] h = refl
drop_all (suc n) (x ∷ a) h = drop_all n a (omega arith)

read_full-full :
    (n : ℕ) (a b : Bytes) (broken : Bool)
    → n ≤ length a
    → read_full n (record { rest = a ++ b; broken = broken })
      ≡ full (take n a) (record { rest = drop n a ++ b; broken = broken })
unfolding read_full
read_full-full n a b broken h =
    ground (arith, take_within n a b h, drop_within n a b h, length-append a b)

module _ (r : WalRecord) where
  slice_magic : slice 0 4 (take 22 (seal (payload r))) ≡ slice 0 4 (seal (payload r))
  unfolding payload seal slice le32 le64
  slice_magic = refl

  slice_key_len : slice 14 18 (take 22 (seal (payload r))) ≡ slice 14 18 (seal (payload r))
  unfolding payload seal slice le32 le64
  slice_key_len = refl

  slice_value_len : slice 18 22 (take 22 (seal (payload r))) ≡ slice 18 22 (seal (payload r))
  unfolding payload seal slice le32 le64
  slice_value_len = refl

  byte_version : byte_at (take 22 (seal (payload r))) 4 ≡ byte_at (seal (payload r)) 4
  unfolding payload seal le32 le64
  byte_version = refl

  byte_operation : byte_at (take 22 (seal (payload r))) 5 ≡ byte_at (seal (payload r)) 5
  unfolding payload seal le32 le64
  byte_operation = refl

-- After a good header the reader asks for exactly the rest of the record.
read_record-header :
    (rd : Reader) (r : WalRecord) (s : Source)
    → IsEncodable r
    → read_record rd (full (take 22 (seal (payload r))) s)
      ≡ read_body rd (take 22 (seal (payload r))) (read_full (length r.key + length r.value + 4) s)
unfolding read_record
read_record-header rd r s h = ground (
  arith,
  slice_magic r,
  slice_key_len r,
  slice_value_len r,
  byte_version r,
  byte_operation r,
  header_magic r,
  header_version r,
  header_operation r,
  header_key_len r,
  header_value_len r,
  h.known,
  h.fits,
)

read_body-rest :
    (rd : Reader) (r : WalRecord) (s : Source)
    → IsEncodable r
    → read_body rd (take 22 (seal (payload r))) (full (drop 22 (seal (payload r))) s)
      ≡ (true, record rd { source = s; current = r })
unfolding read_body
read_body-rest rd r s h = rw (take-append-drop 22 (seal (payload r)), decode-seal r h) refl

module _ (r : WalRecord) where
  size : length (seal (payload r)) ≡ 22 + (length r.key + length r.value + 4)
  size = omega (arith, length-seal (payload r), header_size r)

  take_rest :
      take (length r.key + length r.value + 4) (drop 22 (seal (payload r)))
      ≡ drop 22 (seal (payload r))
  take_rest =
      take_all (length r.key + length r.value + 4) (drop 22 (seal (payload r)))
        (omega (arith, size, length-drop 22 (seal (payload r))))

  drop_rest : drop (length r.key + length r.value + 4) (drop 22 (seal (payload r))) ≡ []
  drop_rest =
      drop_all (length r.key + length r.value + 4) (drop 22 (seal (payload r)))
        (omega (arith, size, length-drop 22 (seal (payload r))))

read_record-cut :
    (rd : Reader) (s : Source)
    → read_record rd (cut s) ≡ (false, record rd { source = s; error = some unexpected_eof })
unfolding read_record
read_record-cut rd s = refl

pub next-reading :
    (rd : Reader) (b : Bytes)
    → IsReading rd b
    → next rd ≡ read_record rd (read_full 22 (record { rest = b; broken = false }))
unfolding next
next-reading rd b v = ground (arith, v.at, v.is_open, v.more, v.good)

module _ (r : WalRecord) (more : Bytes) where
  header_read :
      read_full 22 (record { rest = seal (payload r) ++ more; broken = false })
      ≡ full
          (take 22 (seal (payload r)))
          (record { rest = drop 22 (seal (payload r)) ++ more; broken = false })
  header_read = read_full-full 22 (seal (payload r)) more false (omega (arith, size r))

  body_read :
      read_full
        (length r.key + length r.value + 4)
        (record { rest = drop 22 (seal (payload r)) ++ more; broken = false })
      ≡ full (drop 22 (seal (payload r))) (record { rest = more; broken = false })
  body_read =
      read_full-full (length r.key + length r.value + 4) (drop 22 (seal (payload r))) more false
        (omega (arith, size r, length-drop 22 (seal (payload r))))
      ∙ rw (take_rest r, drop_rest r)

-- `Next` on a log that goes on with an encoded record yields that record and leaves the rest.
pub next-seal :
    (rd : Reader) (r : WalRecord) (more : Bytes)
    → IsEncodable r
    → IsReading rd (seal (payload r) ++ more)
    → next rd ≡ (true, record rd { source = record { rest = more; broken = false }; current = r })
next-seal rd r more h v =
    next-reading rd _ v
    ∙ ap (read_record rd) (header_read r more)
    ∙ read_record-header rd r _ h
    ∙ ap (read_body rd (take 22 (seal (payload r)))) (body_read r more)
    ∙ read_body-rest rd r _ h

read_full-short :
    (n : ℕ) (b : Bytes)
    → length b < n
    → 0 < length b
    → read_full n (record { rest = b; broken = false }) ≡ cut (record { rest = []; broken = false })
unfolding read_full
read_full-short n b h k = ground arith

-- The rest of a record that is not there ends in an error, at whichever byte the stream stops.
read_body-short :
    (rd : Reader) (header b : Bytes) (n : ℕ)
    → length b < n
    → read_body rd header (read_full n (record { rest = b; broken = false })) ≡ (
      false,
      record rd { source = record { rest = []; broken = false }; error = some unexpected_eof },
    )
unfolding read_full read_body stop
read_body-short rd header b n h = ground arith

read_full-enough :
    (n : ℕ) (b : Bytes)
    → n ≤ length b
    → read_full n (record { rest = b; broken = false })
      ≡ full (take n b) (record { rest = drop n b; broken = false })
unfolding read_full
read_full-enough n b h = ground arith

take-take : (n m : ℕ) (b : Bytes) → m ≤ n → take m (take n b) ≡ take m b
take-take n zero b h = refl
take-take zero (suc m) b h = absurd (omega arith)
take-take (suc n) (suc m) [] h = refl
take-take (suc n) (suc m) (x ∷ b) h = ap (λ (t : Bytes). x ∷ t) (take-take n m b (omega arith))

-- `Next` on a torn record: where the log stops after the first byte of a record and before its
-- last one, the reader yields nothing and reports an unexpected end.
pub next_torn :
    (rd : Reader) (r : WalRecord) (n : ℕ)
    → IsEncodable r
    → 0 < n
    → n < length (seal (payload r))
    → IsReading rd (take n (seal (payload r)))
    → next rd ≡ (
      false,
      record rd { source = record { rest = []; broken = false }; error = some unexpected_eof },
    )
next_torn rd r n h pos short v = elim (dec_lt n 22) [
  | yes p ↦
      next-reading rd _ v
      ∙ ap (read_record rd)
          (read_full-short 22 (take n (seal (payload r))) (omega (arith, len)) (omega (arith, len)))
      ∙ read_record-cut rd _
  | no p ↦
      next-reading rd _ v
      ∙ ap (read_record rd) (read_full-enough 22 _ (omega (arith, len)))
      ∙ ap
          (λ (header : Bytes).
            read_record rd
              (full header (record { rest = drop 22 (take n (seal (payload r))); broken = false })))
          (take-take n 22 (seal (payload r)) (omega arith))
      ∙ read_record-header rd r _ h
      ∙ read_body-short rd (take 22 (seal (payload r))) (drop 22 (take n (seal (payload r))))
          (length r.key + length r.value + 4)
          (omega (arith, len, size r, length-drop 22 (take n (seal (payload r)))))
]
  where
    len : length (take n (seal (payload r))) ≡ n
    len = omega (arith, length-take n (seal (payload r)))
