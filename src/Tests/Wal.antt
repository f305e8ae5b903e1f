-- ===== src/Tests/Wal.antt =====
-- The log's format and reader, run on small records.
use cluster_db.Prelude.{
  ◌+◌, ◌<◌, ◌≡◌, refl, arith, true, false, some, ok, err, List, [], ◌∷◌, ◌++◌, take, length,
}
use cluster_db.Prelude.Bytes.{Bytes, text}
use cluster_db.Prelude.Table.{Table, lookup}
use cluster_db.Storage.Types.{Record, unexpected_eof}
use cluster_db.Storage.Time.{epoch, IsRepresentable}
use cluster_db.Wal.Words.{le32, le64}
use cluster_db.Wal.Codec.{WalRecord, payload, seal, encode, decode}
use cluster_db.Wal.Codec.RoundTrip.{IsEncodable, decode-encode}
use cluster_db.Wal.Reader.{Reader, new_reader, next}
use cluster_db.Wal.Reader.Log.{IsReading, log_bytes, next-seal, next_torn}
use cluster_db.Memory.Replay.{replay}
use cluster_db.Memory.Replay.Log.{replayed_at, replay-log_bytes, replay_torn}

abbrev sample : WalRecord
sample = record { operation = 1; timestamp = epoch + 5; key = text "k"; value = text "v1" }

abbrev sample_bytes : Bytes
sample_bytes = seal (payload sample)

sample-IsRepresentable : IsRepresentable (epoch + 5)
sample-IsRepresentable = omega arith

sample-IsEncodable : IsEncodable sample
sample-IsEncodable = record { known = refl; fits = omega arith; in_range = sample-IsRepresentable }

encode-sample : encode sample ≡ ok sample_bytes
unfolding encode
encode-sample = refl

decode-encode_example : decode sample_bytes ≡ ok sample
decode-encode_example = decode-encode sample sample-IsRepresentable encode-sample

abbrev reader_of : Bytes → Reader
reader_of b = new_reader (record { rest = b; broken = false })

reading : (b : Bytes) → IsReading (reader_of b) b
unfolding new_reader
reading b = record { at = refl; is_open = refl; more = refl; good = refl }

sample_read : next (reader_of (sample_bytes ++ 7 ∷ [])) ≡ (
  true,
  record (reader_of (sample_bytes ++ 7 ∷ [])) {
    source = record { rest = 7 ∷ []; broken = false };
    current = sample;
  },
)
sample_read =
    next-seal (reader_of (sample_bytes ++ 7 ∷ [])) sample (7 ∷ []) sample-IsEncodable
      (reading (sample_bytes ++ 7 ∷ []))

sample_longer : 23 < length sample_bytes
unfolding seal payload le32 le64
sample_longer = omega arith

next_torn_example : next (reader_of (take 23 sample_bytes)) ≡ (
  false,
  record (reader_of (take 23 sample_bytes)) {
    source = record { rest = []; broken = false };
    error = some unexpected_eof;
  },
)
next_torn_example =
    next_torn (reader_of (take 23 sample_bytes)) sample 23 sample-IsEncodable (omega arith)
      sample_longer (reading (take 23 sample_bytes))

abbrev deletion : WalRecord
deletion = record { operation = 2; timestamp = epoch + 6; key = text "k"; value = [] }

deletion-IsEncodable : IsEncodable deletion
deletion-IsEncodable = record { known = refl; fits = omega arith; in_range = omega arith }

abbrev sample_log : List WalRecord
sample_log = sample ∷ deletion ∷ sample ∷ []

replay-log_bytes_example :
    (after : Table Record) × (replay
        (record { rest = log_bytes sample_log; broken = false })
        []
        (epoch + 6)
      ≡ some (ok after))
    × ((k : Bytes) → lookup k after ≡ replayed_at (epoch + 6) k sample_log (lookup k []))
replay-log_bytes_example =
    replay-log_bytes sample_log (epoch + 6) []
      (sample-IsEncodable, (deletion-IsEncodable, (sample-IsEncodable, tt)))

replay_torn_example :
    replay
      (record { rest = log_bytes (deletion ∷ []) ++ take 23 sample_bytes; broken = false })
      []
      epoch
    ≡ some (err unexpected_eof)
replay_torn_example =
    replay_torn (deletion ∷ []) sample 23 epoch [] (deletion-IsEncodable, tt) sample-IsEncodable
      (omega arith) sample_longer
