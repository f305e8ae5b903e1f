-- ===== src/Wal/Codec/RoundTrip.antt =====
-- Decoding what was encoded, and what the decoder refuses.
use cluster_db.Prelude.{ℕ, zero, suc, ◌+◌, ◌-◌, ◌^◌, ◌≤◌, ◌<◌, ◌≡◌, refl, sym, arith}
use cluster_db.Prelude.{true, [], ◌∷◌, ◌++◌, length, drop}
use cluster_db.Prelude.{take-append, drop-append, length-append}
use cluster_db.Prelude.{ok}
use cluster_db.Prelude.Bytes.{Bytes}
use cluster_db.Storage.Time.{
  IsRepresentable, unix_nano_bits, of_unix_nano_bits-unix_nano_bits, unix_nano_bits-lt,
}
use cluster_db.Wal.Words.{byte_at, le32, le64, uint32, uint64, uint32-le32, length-le32}
use cluster_db.Wal.Crc.{crc32, crc32-lt}
use cluster_db.Wal.Codec.{
  WalRecord, magic, format_version, valid, max_record_size, payload, seal, encode, decode, slice,
}
use mathlib.Core.List.{append_assoc}
use native.Mathlib.Nat.{zero-add, suc-add}

minus_zero : (n : ℕ) → n - 0 ≡ n
minus_zero n = omega arith

add_sub : (n m : ℕ) → n + m - m ≡ n
add_sub n m = omega arith

add_sub_left : (n m : ℕ) → n + m - n ≡ m
add_sub_left n m = omega arith

drop_nil : (n : ℕ) → drop {A = ℕ} n [] ≡ []
drop_nil zero = refl
drop_nil (suc n) = refl

-- What `Encode` accepts and `UnixNano` represents.
pub record IsEncodable (r : WalRecord) : Type 0 where
  pub known : valid r.operation ≡ true
  pub fits : length r.key + length r.value ≤ max_record_size
  pub in_range : IsRepresentable r.timestamp

pub encode-eq-seal : (r : WalRecord) → IsEncodable r → encode r ≡ ok (seal (payload r))
unfolding encode
encode-eq-seal r h = ground (arith, h.known, h.fits)

drop_add : (n m : ℕ) (b : Bytes) → drop (n + m) b ≡ drop m (drop n b)
drop_add zero m b = rw zero-add
drop_add (suc n) m [] = rw suc-add (sym (drop_nil m))
drop_add (suc n) m (x ∷ b) = rw suc-add (drop_add n m b)

module _ (b : Bytes) where
  pub length-seal : length (seal b) ≡ length b + 4
  unfolding seal
  length-seal = omega (arith, length-append b (le32 (crc32 b)), length-le32 (crc32 b))

  seal_covered : slice 0 (length (seal b) - 4) (seal b) ≡ b
  unfolding slice
  seal_covered =
      rw (length-seal, add_sub (length b) 4)
        (rw minus_zero (unfold seal in take-append b (le32 (crc32 b))))

  seal_sum : uint32 (slice (length (seal b) - 4) (length (seal b)) (seal b)) ≡ crc32 b
  unfolding slice le32
  seal_sum =
      rw (length-seal, add_sub (length b) 4, add_sub_left (length b) 4)
        (unfold seal in rw drop-append (uint32-le32 (crc32 b) [] (crc32-lt b)))

module _ (r : WalRecord) where
  pub header_size : length (payload r) ≡ 22 + (length r.key + length r.value)
  unfolding payload le32 le64
  header_size = omega (arith, length-append r.key r.value)

  pub header_magic : uint32 (slice 0 4 (seal (payload r))) ≡ magic
  unfolding payload seal slice le32 le64 uint32
  header_magic = refl

  pub header_version : byte_at (seal (payload r)) 4 ≡ format_version
  unfolding payload seal le32 le64
  header_version = refl

  pub header_operation : byte_at (seal (payload r)) 5 ≡ r.operation
  unfolding payload seal le32 le64
  header_operation = refl

  header_timestamp : uint64 (slice 6 14 (seal (payload r))) ≡ unix_nano_bits r.timestamp
  unfolding payload seal slice le32 le64 uint64
  header_timestamp = omega (arith, unix_nano_bits-lt r.timestamp)

  pub header_key_len :
      length r.key < 2 ^ 32 → uint32 (slice 14 18 (seal (payload r))) ≡ length r.key
  unfolding payload seal slice le32 le64 uint32
  header_key_len h = omega arith

  pub header_value_len :
      length r.value < 2 ^ 32 → uint32 (slice 18 22 (seal (payload r))) ≡ length r.value
  unfolding payload seal slice le32 le64 uint32
  header_value_len h = omega arith

  body : drop 22 (seal (payload r)) ≡ r.key ++ (r.value ++ le32 (crc32 (payload r)))
  unfolding seal
  body = unfold payload le32 le64 in append_assoc r.key r.value _

  body_key : slice 22 (22 + length r.key) (seal (payload r)) ≡ r.key
  unfolding slice
  body_key = rw (body, add_sub_left 22 (length r.key)) (take-append r.key _)

  body_value :
      slice (22 + length r.key) (length (seal (payload r)) - 4) (seal (payload r)) ≡ r.value
  unfolding slice
  body_value =
      rw (drop_add, body, drop-append, length-seal, header_size, sizes) (take-append r.value _)
    where
      sizes : 22 + (length r.key + length r.value) + 4 - 4 - (22 + length r.key) ≡ length r.value
      sizes = omega arith

pub decode-seal : (r : WalRecord) → IsEncodable r → decode (seal (payload r)) ≡ ok r
unfolding decode
decode-seal r h = ground (
  arith,
  header_magic r,
  header_version r,
  header_operation r,
  header_timestamp r,
  header_key_len r,
  header_value_len r,
  body_key r,
  body_value r,
  length-seal (payload r),
  header_size r,
  seal_covered (payload r),
  seal_sum (payload r),
  h.known,
  h.fits,
  of_unix_nano_bits-unix_nano_bits r.timestamp h.in_range,
)

encode-ok-known : (r : WalRecord) {b : Bytes} → encode r ≡ ok b → valid r.operation ≡ true
unfolding encode
encode-ok-known r e = ground arith

encode-ok-fits :
    (r : WalRecord) {b : Bytes} → encode r ≡ ok b → length r.key + length r.value ≤ max_record_size
unfolding encode
encode-ok-fits r e = ground arith

pub encode-ok-IsEncodable :
    (r : WalRecord) {b : Bytes} → IsRepresentable r.timestamp → encode r ≡ ok b → IsEncodable r
encode-ok-IsEncodable r t e = record {
  known = encode-ok-known r e;
  fits = encode-ok-fits r e;
  in_range = t;
}

-- Whatever `Encode` writes, `Decode` reads back as the same record: operation, instant, key and
-- value. The instant must be one that `UnixNano` represents.
pub decode-encode :
    (r : WalRecord) {b : Bytes} → IsRepresentable r.timestamp → encode r ≡ ok b → decode b ≡ ok r
decode-encode r t e =
    let good : IsEncodable r = encode-ok-IsEncodable r t e in
    cc (decode-seal r good, encode-eq-seal r good)
