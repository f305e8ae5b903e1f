-- ===== src/Memory/Replay.antt =====
-- internal/storage/memory/replay.go: applying the records of a log to a store.
pub mod Log
use cluster_db.Prelude.{ℕ, zero, suc, ◌+◌, Bool, true, false, not, ◌&&◌, Option, none, some}
use cluster_db.Prelude.{[], ◌∷◌, length, ltb, ◌==◌, if◌then◌else◌}
use cluster_db.Prelude.{Result, ok, err}
use cluster_db.Prelude.Bytes.{Bytes}
use cluster_db.Prelude.Table.{Table, lookup, insert, remove}
use cluster_db.Storage.Time.{Time}
use cluster_db.Storage.Types.{Error, Record, unknown_operation}
use cluster_db.Wal.Codec.{WalRecord, operation_put, operation_delete}
use cluster_db.Wal.Reader.{Source, Reader, new_reader, next}

-- `append([]byte(nil), b...)`: an empty slice becomes nil.
abbrev pub fresh_copy : Bytes → Option Bytes
fresh_copy [] = none
fresh_copy (x ∷ b) = some (x ∷ b)

-- The record that replaying a put stores.
unfoldable pub replayed_put : WalRecord → Option Record → Record
replayed_put r existing = record {
  key = r.key;
  value = fresh_copy r.value;
  metadata = record {
    ttl = 0;
    version = 0;
    created_at = elim existing [ none ↦ r.timestamp | some x ↦ x.metadata.created_at ];
    updated_at = r.timestamp;
    delete_marker = false;
  };
}

-- `!IsZero && !After && !Equal`: the record is older than the checkpoint.
abbrev pub is_stale : Time → WalRecord → Bool
is_stale since r = not (r.timestamp == 0) && ltb r.timestamp since

-- The body of the loop, for one record.
unfoldable pub apply_record : Time → WalRecord → Table Record → Result Error (Table Record)
apply_record since r store =
    if is_stale since r
    then ok store
    else if r.operation == operation_put
    then ok (insert r.key (replayed_put r (lookup r.key store)) store)
    else if r.operation == operation_delete
    then ok (remove r.key store)
    else err unknown_operation

-- What follows the loop: the reader's error, if it has one.
abbrev pub finish_replay : Option Error → Table Record → Result Error (Table Record)
finish_replay none store = ok store
finish_replay (some e) store = err e

-- `for reader.Next()`. A record takes a byte of the source at least, so the number of bytes and one
-- more is enough fuel; `none` means that the fuel ran out.
unfoldable pub replay_loop : ℕ → Time → Reader → Table Record → Option (Result Error (Table Record))
replay_loop zero since rd store = none
replay_loop (suc fuel) since rd store =
    let (more, rd') = next rd in
    elim more [
      | false ↦ some (finish_replay rd'.error store)
      | true ↦ elim (apply_record since rd'.current store) [
        | err e ↦ some (err e)
        | ok store' ↦ replay_loop fuel since rd' store'
      ]
    ]

-- replay
unfoldable pub replay : Source → Table Record → Time → Option (Result Error (Table Record))
replay s store since = replay_loop (length s.rest + 1) since (new_reader s) store
