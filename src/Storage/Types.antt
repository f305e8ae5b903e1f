-- ===== src/Storage/Types.antt =====
-- internal/storage/types.go and errors.go, and the sentinel errors of internal/storage/wal.
use cluster_db.Prelude.{ℕ, Bool, Option}
use cluster_db.Prelude.Bytes.{Bytes}
use cluster_db.Storage.Time.{Time}

-- A wrapped error is the sentinel that `errors.Is` finds in it; `io` is any error of the
-- operating system but a missing file, which is `not_exist`.
pub data Error : Type 0 where
  key_not_found engine_closed invalid_key nil_value iterator_closed : Error
  invalid_magic invalid_version checksum_mismatch unexpected_eof corrupted_record : Error
  wal_closed short_write unknown_operation empty_path not_exist io : Error

-- `Version` is a uint64 and `TTL` a duration.
pub record Metadata : Type 0 where
  pub ttl : ℕ
  pub version : ℕ
  pub created_at : Time
  pub updated_at : Time
  pub delete_marker : Bool

-- A nil value is `none`; the engine never tells a nil key from an empty one.
pub record Record : Type 0 where
  pub key : Bytes
  pub value : Option Bytes
  pub metadata : Metadata

-- An empty bound is no bound, and so is a limit of zero.
pub record ScanOptions : Type 0 where
  pub prefix : Bytes
  pub start : Bytes
  pub finish : Bytes
  pub limit : ℕ
  pub reverse : Bool
