-- ===== src/Document/Service/Sorted.antt =====
-- What FindByField with a sort field returns: a page of the sorted documents.
use cluster_db.Prelude.{ℕ, ◌+◌, ◌^◌, ◌<◌}
use cluster_db.Prelude.{Option, none, some}
use cluster_db.Prelude.Bytes.{Bytes}
use cluster_db.Os.Disk.{Os}
use cluster_db.Document.Service.{Service}
use cluster_db.Prelude.Table.{Table}

-- The end of the page is a number of the source.
abbrev pub IsBounded : Option ℕ → ℕ → Type 0
IsBounded none offset = Unit {0}
IsBounded (some limit) offset = offset + limit < 2 ^ 63
