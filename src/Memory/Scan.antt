-- ===== src/Memory/Scan.antt =====
-- internal/storage/memory/engine.go: collectRecords and the iterator.
pub mod Loop
use cluster_db.Prelude.{ℕ, zero, suc, ◌+◌, Bool, true, false, not, ◌&&◌, ◌||◌, Option, none, some}
use cluster_db.Prelude.{List, [], ◌∷◌, length, take, get_elem?, ltb, ◌==◌, if◌then◌else◌}
use cluster_db.Prelude.Bytes.{Bytes, bytes_lt, has_prefix}
use cluster_db.Prelude.Table.{Table, lookup}
use cluster_db.Storage.Types.{Error, Record, ScanOptions, iterator_closed}
use mathlib.Core.List.{reverse}

-- The tests of the first loop of collectRecords: a record passes when none of them skips it.
unfoldable pub is_wanted : ScanOptions → Bytes → Record → Bool
is_wanted opts k rec =
    not rec.metadata.delete_marker
    && (length opts.prefix == 0 || has_prefix k opts.prefix)
    && (length opts.start == 0 || not (bytes_lt k opts.start))
    && (length opts.finish == 0 || bytes_lt k opts.finish)

unfoldable pub matching_keys : ScanOptions → Table Record → List Bytes
matching_keys opts [] = []
matching_keys opts ((k, rec) ∷ m) =
    let rest = matching_keys opts m in if is_wanted opts k rec then k ∷ rest else rest

unfoldable pub insert_sorted : Bytes → List Bytes → List Bytes
insert_sorted k [] = k ∷ []
insert_sorted k (j ∷ ks) = if bytes_lt j k then j ∷ insert_sorted k ks else k ∷ j ∷ ks

-- sort.Strings. Equal strings cannot be told apart, so every sort has this result.
unfoldable pub sort_strings : List Bytes → List Bytes
unfolding insert_sorted
sort_strings [] = []
sort_strings (k ∷ ks) = insert_sorted k (sort_strings ks)

-- The keys of the records that a scan returns, in its order.
unfoldable pub scan_keys : ScanOptions → Table Record → List Bytes
scan_keys opts store =
    let sorted = sort_strings (matching_keys opts store) in
    let ordered = if opts.reverse then reverse sorted else sorted in
    if ltb 0 opts.limit && ltb opts.limit (length ordered) then take opts.limit ordered else ordered

abbrev pub zero_record : Record
zero_record = record {
  key = [];
  value = none;
  metadata = record { ttl = 0; version = 0; created_at = 0; updated_at = 0; delete_marker = false };
}

-- `e.store[k]`
abbrev pub record_or_zero : Option Record → Record
record_or_zero none = zero_record
record_or_zero (some rec) = rec

unfoldable pub records_at : Table Record → List Bytes → List Record
records_at store [] = []
records_at store (k ∷ ks) = record_or_zero (lookup k store) ∷ records_at store ks

-- collectRecords
unfoldable pub collect_records : ScanOptions → Table Record → List Record
collect_records opts store = records_at store (scan_keys opts store)

-- `pos` counts the calls of Next that found the iterator open: it is the source's `pos` + 1.
-- `current` is `none` before the first record.
pub record Iterator : Type 0 where
  pub records : List Record
  pub pos : ℕ
  pub current : Option Record
  pub error : Option Error
  pub closed : Bool

unfoldable pub new_iterator : List Record → Iterator
new_iterator records = record {
  records = records;
  pos = 0;
  current = none;
  error = none;
  closed = false;
}

-- iterator.Next
unfoldable pub next : Iterator → Bool × Iterator
next it =
    if it.closed
    then (false, record it { error = some iterator_closed })
    else elim (get_elem? it.records it.pos) [
      | none ↦ (false, record it { pos = it.pos + 1 })
      | some rec ↦ (true, record it { pos = it.pos + 1; current = some rec })
    ]

-- iterator.Close
unfoldable pub close : Iterator → Iterator
close it = if it.closed then it else record it { closed = true; records = [] }

-- The loop `for it.Next() { ... it.Record() ... }` of a caller, at most `fuel` rounds.
unfoldable pub iterate : ℕ → Iterator → List Record × Iterator
iterate zero it = ([], it)
iterate (suc fuel) it =
    let (more, it') = next it in
    elim more [
      | false ↦ ([], it')
      | true ↦ elim it'.current [
        | none ↦ ([], it')
        | some rec ↦ let (recs, end) = iterate fuel it' in (rec ∷ recs, end)
      ]
    ]
