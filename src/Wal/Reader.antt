-- ===== src/Wal/Reader.antt =====
-- internal/storage/wal/reader.go: reading a log record by record.
pub mod Log
use cluster_db.Prelude.{ℕ, zero, suc, ◌+◌, ◌-◌, ◌*◌, ◌≤◌, ◌<◌, ◌≡◌, refl, arith}
use cluster_db.Prelude.{Bool, true, false, ◌||◌, ◌&&◌, not, List, [], ◌∷◌, ◌++◌, length, take, drop}
use cluster_db.Prelude.{Option, none, some, ltb, leb, ◌==◌, if◌then◌else◌, Result, ok, err}
use cluster_db.Prelude.Bytes.{Bytes}
use cluster_db.Storage.Types.{
  Error, invalid_magic, invalid_version, unexpected_eof, corrupted_record, wal_closed, io,
}
use cluster_db.Wal.Words.{byte_at, uint32}
use cluster_db.Wal.Codec.{
  WalRecord, magic, format_version, fixed_header_size, checksum_size, max_record_size, valid, slice,
  decode,
}

-- An io.Reader: the bytes that are left, and whether they end in an error other than io.EOF.
pub record Source : Type 0 where
  pub rest : Bytes
  pub broken : Bool

-- What io.ReadFull returns: all bytes; io.EOF with nothing read; or any other error.
pub data ReadFull : Type 0 where
  full : Bytes → Source → ReadFull
  eof : Source → ReadFull
  cut : Source → ReadFull

unfoldable pub read_full : ℕ → Source → ReadFull
read_full n s =
    let used : Source = record s { rest = [] } in
    if leb n (length s.rest)
    then full (take n s.rest) (record s { rest = drop n s.rest })
    else if length s.rest == 0 && not s.broken
    then eof used
    else cut used

-- `closer` is the stream's Close, with its error.
pub record Reader : Type 0 where
  pub source : Source
  pub closer : Option (Option Error)
  pub current : WalRecord
  pub error : Option Error
  pub closed : Bool
  pub finished : Bool

abbrev pub empty_record : WalRecord
empty_record = record { operation = 0; timestamp = 0; key = []; value = [] }

-- NewReader of a stream with no Close.
unfoldable pub new_reader : Source → Reader
new_reader s = record {
  source = s;
  closer = none;
  current = empty_record;
  error = none;
  closed = false;
  finished = false;
}

abbrev pub is_some {ℓ} : {A : Type ℓ} → Option A → Bool
is_some none = false
is_some (some a) = true

stop : Reader → Source → Error → Bool × Reader
stop r s e = (false, record r { source = s; error = some e })

yield_decoded : Reader → Source → Result Error WalRecord → Bool × Reader
unfolding stop
yield_decoded r s (ok rec) = (true, record r { source = s; current = rec })
yield_decoded r s (err e) = stop r s e

unfoldable pub read_body : Reader → Bytes → ReadFull → Bool × Reader
unfolding yield_decoded
read_body r header (full body s) = yield_decoded r s (decode (header ++ body))
read_body r header (eof s) = stop r s unexpected_eof
read_body r header (cut s) = stop r s unexpected_eof

unfoldable pub read_record : Reader → ReadFull → Bool × Reader
unfolding read_body stop
read_record r (eof s) = (false, record r { source = s; finished = true })
read_record r (cut s) = stop r s unexpected_eof
read_record r (full header s) =
    if not (uint32 (slice 0 4 header) == magic)
    then stop r s invalid_magic
    else if not (byte_at header 4 == format_version)
    then stop r s invalid_version
    else if not (valid (byte_at header 5))
    then stop r s corrupted_record
    else let len = uint32 (slice 14 18 header) + uint32 (slice 18 22 header) in
      if ltb max_record_size len
      then stop r s corrupted_record
      else read_body r header (read_full (len + checksum_size) s)

-- Reader.Next
unfoldable pub next : Reader → Bool × Reader
unfolding read_record read_full
next r =
    if r.closed
    then (false, record r { error = elim r.error [ none ↦ some wal_closed | some e ↦ some e ] })
    else if r.finished || is_some r.error
    then (false, r)
    else read_record r (read_full fixed_header_size r.source)

-- Reader.Close
unfoldable pub close : Reader → Option Error × Reader
close r =
    if r.closed
    then (none, r)
    else (elim r.closer [ none ↦ none | some e ↦ e ], record r { closed = true })
