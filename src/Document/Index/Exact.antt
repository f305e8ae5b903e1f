-- ===== src/Document/Index/Exact.antt =====
-- The index holds exactly the field values of the documents that were indexed.
use cluster_db.Prelude.{◌≡◌, Bool, false, ◌||◌, ◌&&◌, Option, none, some}
use cluster_db.Prelude.{[], ◌∷◌}
use cluster_db.Prelude.Bytes.{Bytes, bytes_eq}
use cluster_db.Prelude.Table.{Table, lookup, insert, remove}
use cluster_db.Document.Index.{
  Indexes, FieldIndex, Values, or_empty, indexable_field_values, index_document, remove_document,
  update_document,
}
use cluster_db.Wal.Reader.{is_some}

-- Whether the index lists the id under a field and a value.
abbrev pub has : Bytes → Bytes → Bytes → Indexes → Bool
has field value id m = is_some (lookup id (or_empty (lookup value (or_empty (lookup field m)))))

-- Whether a field has the value.
unfoldable pub listed : Bytes → Bytes → Table Bytes → Bool
listed field value [] = false
listed field value ((f, v) ∷ t) = bytes_eq f field && bytes_eq v value || listed field value t

-- Whether the index of one field lists the id under a value.
abbrev pub has_value : Bytes → Bytes → FieldIndex → Bool
has_value v i t = is_some (lookup i (or_empty (lookup v t)))

module _ (vs : Values) where
  abbrev pub Documents : Type 0
  Documents = Table (Table vs.Value)

  -- Whether a stored document has the printed value in the field.
  abbrev pub held : Bytes → Bytes → Option (Table vs.Value) → Bool
  held f v none = false
  held f v (some d) = listed f v (indexable_field_values vs d)

  -- The calls of a client that indexes what it stores: the documents, and the indexes beside them.
  pub data Kept : Documents → Indexes → Type 0 where
    start : Kept [] []
    created :
        {docs : Documents} {m : Indexes}
        → (id : Bytes) → (d : Table vs.Value) → Kept docs m
        → lookup id docs ≡ none
        → Kept (insert id d docs) (index_document vs id d m)
    updated :
        {docs : Documents} {m : Indexes}
        → (id : Bytes) → (old new : Table vs.Value) → Kept docs m
        → lookup id docs ≡ some old
        → Kept (insert id new docs) (update_document vs id old new m)
    deleted :
        {docs : Documents} {m : Indexes}
        → (id : Bytes) → (old : Table vs.Value) → Kept docs m
        → lookup id docs ≡ some old
        → Kept (remove id docs) (remove_document vs id old m)
