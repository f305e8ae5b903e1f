-- ===== src/Tests/Scan.antt =====
-- The loop over a scan of three records.
use cluster_db.Prelude.{◌≡◌, refl, ◌<◌, arith, true, false, ok, some, [], ◌∷◌, length, ◌>>=◌}
use cluster_db.Prelude.Bytes.{text, bytes_lt, has_prefix}
use cluster_db.Prelude.Table.{lookup}
use cluster_db.Storage.Types.{ScanOptions}
use cluster_db.Memory.Engine.{Engine, check_open}
use cluster_db.Memory.Scan.{
  next, iterate, collect_records, new_iterator, scan_keys, matching_keys, is_wanted, sort_strings,
  insert_sorted, records_at,
}
use cluster_db.Memory.Scan.Loop.{iterate-scan}
use cluster_db.Memory.Ops.{scan}
use cluster_db.Server.Node.{plain_record}
use cluster_db.Tests.Memory.{steady}
use cluster_db.Tests.Kv.{opened}

abbrev three : Engine
three = record opened.engine {
  store =
      (text "b", plain_record (text "b") (some (text "2")) 1)
      ∷ (text "a", plain_record (text "a") (some (text "1")) 1)
      ∷ (text "c", plain_record (text "c") (some (text "3")) 1)
      ∷ [];
}

-- Backwards from "c", which is left out.
abbrev down : ScanOptions
down = record { prefix = []; start = []; finish = text "c"; limit = 0; reverse = true }

two_collected : length (collect_records down three.store) < 3
unfolding collect_records scan_keys matching_keys is_wanted sort_strings insert_sorted records_at
    bytes_lt has_prefix lookup
two_collected = omega arith

down_scanned : (scan steady down three).0 ≡ ok (new_iterator (collect_records down three.store))
unfolding scan check_open ◌>>=◌
down_scanned = refl

iterate-scan_example :
    ((iterate 3 (new_iterator (collect_records down three.store))).0
      ≡ collect_records down three.store)
    × ((next (iterate 3 (new_iterator (collect_records down three.store))).1).0 ≡ false)
iterate-scan_example =
    iterate-scan steady down three (new_iterator (collect_records down three.store)) 3 down_scanned
      two_collected
