-- ===== src/Wal/Codec.antt =====
-- internal/storage/wal/record.go: the binary format of one log record.
pub mod RoundTrip
use cluster_db.Prelude.{ℕ, zero, suc, ◌+◌, ◌-◌, ◌*◌, ◌/◌, ◌%◌, ◌^◌, ◌≤◌, ◌<◌, ◌≡◌, refl, arith}
use cluster_db.Prelude.{Bool, true, false, ◌||◌, not, List, [], ◌∷◌, ◌++◌, length, take, drop}
use cluster_db.Prelude.{ltb, leb, ◌==◌, if◌then◌else◌, Result, ok, err}
use cluster_db.Prelude.Bytes.{Bytes}
use cluster_db.Storage.Time.{Time, unix_nano_bits, of_unix_nano_bits}
use cluster_db.Storage.Types.{
  Error, invalid_magic, invalid_version, checksum_mismatch, unexpected_eof, corrupted_record,
}
use cluster_db.Wal.Words.{byte_at, le32, le64, uint32, uint64}
use cluster_db.Wal.Crc.{crc32}

abbrev pub magic : ℕ
magic = 0x4344574c

-- `Version`.
abbrev pub format_version : ℕ
format_version = 1

abbrev pub fixed_header_size : ℕ
fixed_header_size = 22

abbrev pub checksum_size : ℕ
checksum_size = 4

-- 64 << 20
abbrev pub max_record_size : ℕ
max_record_size = 67108864

-- An `OperationType` is any uint8.
abbrev pub operation_put : ℕ
operation_put = 1

abbrev pub operation_delete : ℕ
operation_delete = 2

pub record WalRecord : Type 0 where
  pub operation : ℕ
  pub timestamp : Time
  pub key : Bytes
  pub value : Bytes

abbrev pub valid : ℕ → Bool
valid o = o == operation_put || o == operation_delete

-- The header, key and value: every byte that the checksum covers.
unfoldable pub payload : WalRecord → Bytes
payload r =
    le32 magic
    ++ (format_version
        ∷ r.operation
        ∷ (le64 (unix_nano_bits r.timestamp)
            ++ (le32 (length r.key) ++ (le32 (length r.value) ++ (r.key ++ r.value)))))

-- The checksum goes behind the bytes that it covers.
unfoldable pub seal : Bytes → Bytes
seal b = b ++ le32 (crc32 b)

-- WALRecord.Encode
unfoldable pub encode : WalRecord → Result Error Bytes
encode r =
    if not (valid r.operation)
    then err corrupted_record
    else if ltb max_record_size (length r.key)
        || ltb max_record_size (length r.value)
        || ltb max_record_size (length r.key + length r.value)
    then err corrupted_record
    else ok (seal (payload r))

-- b[lo:hi]
unfoldable pub slice : ℕ → ℕ → Bytes → Bytes
slice lo hi b = take (hi - lo) (drop lo b)

-- Decode
unfoldable pub decode : Bytes → Result Error WalRecord
decode b =
    if ltb (length b) fixed_header_size
    then err unexpected_eof
    else if not (uint32 (slice 0 4 b) == magic)
    then err invalid_magic
    else if not (byte_at b 4 == format_version)
    then err invalid_version
    else if not (valid (byte_at b 5))
    then err corrupted_record
    else let key_len = uint32 (slice 14 18 b) in
      let value_len = uint32 (slice 18 22 b) in
      let expected = fixed_header_size + checksum_size + (key_len + value_len) in
      let covered = slice 0 (length b - checksum_size) b in
      let key_end = fixed_header_size + key_len in
      if ltb max_record_size (key_len + value_len)
      then err corrupted_record
      else if ltb (length b) expected
      then err unexpected_eof
      else if not (length b == expected)
      then err corrupted_record
      else if not (crc32 covered == uint32 (slice (length b - checksum_size) (length b) b))
      then err checksum_mismatch
      else ok (record {
        operation = byte_at b 5;
        timestamp = of_unix_nano_bits (uint64 (slice 6 14 b));
        key = slice fixed_header_size key_end b;
        value = slice key_end (length b - checksum_size) b;
      })
