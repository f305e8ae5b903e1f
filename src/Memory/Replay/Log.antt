-- ===== src/Memory/Replay/Log.antt =====
-- What replaying a log of encoded records does to a store, whole or torn.
use cluster_db.Prelude.{ℕ, suc, ◌+◌, ◌-◌, ◌≤◌, ◌<◌, ◌≡◌, refl, ap, ◌∙◌, arith, true, false, ◌⊎◌}
use cluster_db.Prelude.{
  List, [], ◌∷◌, ◌++◌, length, length-append, take, All, Option, none, some, inl, inr, ltb, ◌&&◌,
}
use cluster_db.Prelude.{ok, err, ◌==◌, if◌then◌else◌}
use cluster_db.Prelude.Bytes.{Bytes, bytes_eq, bytes_eq_iff}
use cluster_db.Prelude.Table.{Table, lookup, insert, remove, lookup-insert, lookup-remove}
use cluster_db.Storage.Time.{Time}
use cluster_db.Storage.Types.{Error, Record, unexpected_eof}
use cluster_db.Wal.Codec.{WalRecord, operation_put, payload, seal}
use cluster_db.Wal.Codec.RoundTrip.{IsEncodable, length-seal}
use cluster_db.Wal.Reader.{Reader, new_reader, next, read_full, read_record}
use cluster_db.Wal.Reader.Log.{IsReading, log_bytes, next-seal, next_torn, next-reading}
use cluster_db.Memory.Replay.{
  replayed_put, is_stale, apply_record, finish_replay, replay_loop, replay,
}
use mathlib.Core.List.{append_assoc, append-nil}
use native.Mathlib.Nat.{zero-add, suc-add}

List-cases : (v : Bytes) → (v ≡ []) ⊎ ((x : ℕ) × (w : Bytes) × (v ≡ x ∷ w))
List-cases [] = inl refl
List-cases (x ∷ w) = inr (x, w, refl)

-- What one record of the log does to the store.
unfoldable pub effect : Time → WalRecord → Table Record → Table Record
effect since r store =
    if is_stale since r
    then store
    else if r.operation == operation_put
    then insert r.key (replayed_put r (lookup r.key store)) store
    else remove r.key store

-- The store after a log, oldest record first.
unfoldable pub effects : Time → List WalRecord → Table Record → Table Record
effects since [] store = store
effects since (r ∷ rs) store = effects since rs (effect since r store)

apply_record-effect :
    (since : Time) (r : WalRecord) (store : Table Record)
    → IsEncodable r
    → apply_record since r store ≡ ok (effect since r store)
unfolding apply_record effect
apply_record-effect since r store h = ground (arith, h.known)

replay_loop-next :
    (fuel : ℕ) (since : Time) (rd rd' : Reader) (store store' : Table Record)
    → next rd ≡ (true, rd')
    → apply_record since rd'.current store ≡ ok store'
    → replay_loop (suc fuel) since rd store ≡ replay_loop fuel since rd' store'
unfolding replay_loop
replay_loop-next fuel since rd rd' store store' e a = ground (arith, e, a)

replay_loop-stop :
    (fuel : ℕ) (since : Time) (rd rd' : Reader) (store : Table Record)
    → next rd ≡ (false, rd')
    → replay_loop (suc fuel) since rd store ≡ some (finish_replay rd'.error store)
unfolding replay_loop
replay_loop-stop fuel since rd rd' store e = ground (arith, e)

-- The loop consumes the records of the log, and goes on with a reader of what follows them.
replay_loop-log :
    (rs : List WalRecord) (fuel : ℕ) (since : Time) (rd : Reader) (store : Table Record)
    (tail : Bytes)
    → All IsEncodable rs
    → IsReading rd (log_bytes rs ++ tail)
    → (rd' : Reader) × IsReading rd' tail
      × (replay_loop (length rs + fuel) since rd store
          ≡ replay_loop fuel since rd' (effects since rs store))
unfolding effects
replay_loop-log [] fuel since rd store tail h v = (rd, v, rw zero-add)
replay_loop-log (r ∷ rs) fuel since rd store tail h v =
    let more : Bytes = log_bytes rs ++ tail in
    let rd1 : Reader = record rd { source = record { rest = more; broken = false }; current = r } in
    let step : next rd ≡ (true, rd1) =
      next-seal rd r more h.0 (rw (append_assoc (seal (payload r)) (log_bytes rs) tail) at v) in
    let (rd', v', e) =
      replay_loop-log rs fuel since rd1 (effect since r store) tail h.1
        (record { at = refl; is_open = v.is_open; more = v.more; good = v.good }) in
    (
      rd',
      v',
      rw suc-add (
          replay_loop-next (length rs + fuel) since rd rd1 store (effect since r store) step
            (apply_record-effect since r store h.0)
          ∙ e),
    )

length-log_bytes : (rs : List WalRecord) → length rs ≤ length (log_bytes rs)
length-log_bytes [] = omega arith
length-log_bytes (r ∷ rs) = omega (
  arith,
  length-log_bytes rs,
  length-append (seal (payload r)) (log_bytes rs),
  length-seal (payload r),
)

next_end :
    (rd : Reader)
    → IsReading rd []
    → next rd
      ≡ (false, record rd { source = record { rest = []; broken = false }; finished = true })
unfolding read_full read_record
next_end rd v = next-reading rd [] v

replay_split :
    (rs : List WalRecord) (since : Time) (store : Table Record) (tail : Bytes)
    → All IsEncodable rs
    → (fuel : ℕ) × (rd' : Reader) × IsReading rd' tail
      × (replay (record { rest = log_bytes rs ++ tail; broken = false }) store since
          ≡ replay_loop (suc fuel) since rd' (effects since rs store))
unfolding replay
replay_split rs since store tail h =
    let bytes : Bytes = log_bytes rs ++ tail in
    let fuel : ℕ = length bytes - length rs in
    let enough : length bytes + 1 ≡ length rs + suc fuel =
      omega (arith, length-log_bytes rs, length-append (log_bytes rs) tail) in
    let (rd', v, e) =
      replay_loop-log rs (suc fuel) since (new_reader (record { rest = bytes; broken = false }))
        store tail h
        (unfold new_reader in record { at = refl; is_open = refl; more = refl; good = refl }) in
    (fuel, rd', v, rw enough e)

pub replay-effects :
    (rs : List WalRecord) (since : Time) (store : Table Record)
    → All IsEncodable rs
    → replay (record { rest = log_bytes rs; broken = false }) store since
      ≡ some (ok (effects since rs store))
replay-effects rs since store h =
    let (fuel, rd', v, e) = replay_split rs since store [] h in
    let good : replay (record { rest = log_bytes rs ++ []; broken = false }) store since
        ≡ some (ok (effects since rs store)) =
      e
      ∙ replay_loop-stop fuel since rd' _ _ (next_end rd' v)
      ∙ ap (λ (o : Option Error). some (finish_replay o (effects since rs store))) v.good in
    rw append-nil at good

-- The record that a replayed put leaves of its key: its value, where no byte is nil, the creation
-- time of the record before it, if there is one, and the instant of the put.
abbrev pub put_again : WalRecord → Option Record → Record
put_again r old = record {
  key = r.key;
  value = if length r.value == 0 then none else some r.value;
  metadata = record {
    ttl = 0;
    version = 0;
    created_at = elim old [ none ↦ r.timestamp | some x ↦ x.metadata.created_at ];
    updated_at = r.timestamp;
    delete_marker = false;
  };
}

-- What one record of a log makes of what is stored under a key. It passes over a record of another
-- key, and over one from before the checkpoint, whose instant is above 0 and below it.
abbrev pub at_key : Time → Bytes → WalRecord → Option Record → Option Record
at_key since k r old =
    if bytes_eq r.key k
    then if ltb 0 r.timestamp && ltb r.timestamp since
      then old
      else if r.operation == 1
      then some (put_again r old)
      else none
    else old

-- The same of a whole log, oldest record first.
abbrev pub replayed_at : Time → Bytes → List WalRecord → Option Record → Option Record
replayed_at since k [] old = old
replayed_at since k (r ∷ rs) old = replayed_at since k rs (at_key since k r old)

replayed_put-put_again :
    (r : WalRecord) (old : Option Record) → replayed_put r old ≡ put_again r old
unfolding replayed_put
replayed_put-put_again r old = elim (List-cases r.value) [
  | inl e ↦ ground (arith, e)
  | inr (x, v, e) ↦ ground (arith, e)
]

lookup-effect :
    (since : Time) (k : Bytes) (r : WalRecord) (store : Table Record)
    → lookup k (effect since r store) ≡ at_key since k r (lookup k store)
unfolding effect
lookup-effect since k r store = ground (
  arith,
  replayed_put-put_again r (lookup r.key store),
  lookup-insert r.key k (replayed_put r (lookup r.key store)) store,
  lookup-remove r.key k store,
  bytes_eq_iff r.key k,
)

lookup-effects :
    (since : Time) (k : Bytes) (rs : List WalRecord) (store : Table Record)
    → lookup k (effects since rs store) ≡ replayed_at since k rs (lookup k store)
unfolding effects
lookup-effects since k [] store = refl
lookup-effects since k (r ∷ rs) store =
    lookup-effects since k rs (effect since r store)
    ∙ ap (replayed_at since k rs) (lookup-effect since k r store)

-- Replaying a whole log always ends, without an error, and leaves under every key what its records
-- of the key make, oldest first, of what was stored: those from before the checkpoint nothing, a put
-- its value and its instant with the creation time that was there, a delete no record. The records
-- are such as Encode accepts, with an instant that UnixNano represents.
pub replay-log_bytes :
    (rs : List WalRecord) (since : Time) (store : Table Record)
    → All IsEncodable rs
    → (after : Table Record) × (replay (record { rest = log_bytes rs; broken = false }) store since
        ≡ some (ok after))
      × ((k : Bytes) → lookup k after ≡ replayed_at since k rs (lookup k store))
replay-log_bytes rs since store h =
    (effects since rs store, replay-effects rs since store h, λ k. lookup-effects since k rs store)

-- A log whose last record is torn, as a crash in the middle of an append leaves it, is refused:
-- replay ends with an unexpected end of file, however good the records before are.
pub replay_torn :
    (rs : List WalRecord) (r : WalRecord) (n : ℕ) (since : Time) (store : Table Record)
    → All IsEncodable rs
    → IsEncodable r
    → 0 < n
    → n < length (seal (payload r))
    → replay
        (record { rest = log_bytes rs ++ take n (seal (payload r)); broken = false })
        store
        since
      ≡ some (err unexpected_eof)
replay_torn rs r n since store h hr pos short =
    let (fuel, rd', v, e) = replay_split rs since store (take n (seal (payload r))) h in
    e ∙ replay_loop-stop fuel since rd' _ _ (next_torn rd' r n hr pos short v)
