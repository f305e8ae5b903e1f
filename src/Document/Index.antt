-- ===== src/Document/Index.antt =====
-- internal/document/index/index.go: inverted indexes from field values to document ids.
pub mod Exact
use cluster_db.Prelude.{
  Bool, true, false, ◌||◌, Option, none, some, List, [], ◌∷◌, length, ◌==◌, if◌then◌else◌,
}
use cluster_db.Prelude.Bytes.{Bytes, text, bytes_eq}
use cluster_db.Prelude.Table.{Table, lookup, insert, remove, keys}
use cluster_db.Memory.Scan.{sort_strings}

-- A set of ids is a table of nothing. From a field to a value to the ids.
abbrev pub Ids : Type 0
Ids = Table (Unit {0})

abbrev pub FieldIndex : Type 0
FieldIndex = Table Ids

abbrev pub Indexes : Type 0
Indexes = Table FieldIndex

-- The values of a document's fields: fmt.Sprint of one, and whether reflection finds a map, a slice
-- or an array.
pub record Values : Type 1 where
  pub Value : Type 0
  pub sprint : Value → Bytes
  pub is_nested_value : Value → Bool

-- m[key], where a missing one is empty.
abbrev pub or_empty : {A : Type 0} → Option (Table A) → Table A
or_empty none = []
or_empty (some t) = t

-- addIDLocked
unfoldable pub add_id : Bytes → Bytes → Bytes → Indexes → Indexes
add_id field value id m =
    let field_index = or_empty (lookup field m) in
    let id_set = or_empty (lookup value field_index) in
    insert field (insert value (insert id tt id_set) field_index) m

abbrev pub not_empty : {A : Type 0} → Table A → Bool
not_empty [] = false
not_empty (x ∷ t) = true

-- removeIDLocked, behind its reading of the set: the sets are shared in the source, so the changed
-- one is written back here, and one that is empty is deleted.
unfoldable pub remove_from_set : Bytes → Bytes → Bytes → FieldIndex → Option Ids → Indexes → Indexes
remove_from_set field value id field_index none m = m
remove_from_set field value id field_index (some id_set) m =
    let ids = remove id id_set in
    let values = remove value field_index in
    if not_empty ids
    then insert field (insert value ids field_index) m
    else if not_empty values
    then insert field values m
    else remove field m

unfoldable pub remove_from_field : Bytes → Bytes → Bytes → Option FieldIndex → Indexes → Indexes
remove_from_field field value id none m = m
remove_from_field field value id (some field_index) m =
    remove_from_set field value id field_index (lookup value field_index) m

-- removeIDLocked
unfoldable pub remove_id : Bytes → Bytes → Bytes → Indexes → Indexes
remove_id field value id m = remove_from_field field value id (lookup field m) m

-- The loops over the field values.
unfoldable pub add_all : Bytes → Table Bytes → Indexes → Indexes
add_all id [] m = m
add_all id ((field, value) ∷ fields) m = add_all id fields (add_id field value id m)

unfoldable pub remove_all : Bytes → Table Bytes → Indexes → Indexes
remove_all id [] m = m
remove_all id ((field, value) ∷ fields) m = remove_all id fields (remove_id field value id m)

-- Lookup, of a value that is printed.
unfoldable pub lookup_ids : Bytes → Bytes → Indexes → List Bytes
lookup_ids field value m = sort_strings (keys (or_empty (lookup value (or_empty (lookup field m)))))

-- Fields
unfoldable pub fields : Indexes → List Bytes
fields m = sort_strings (keys m)

module _ (vs : Values) where
  -- indexableFieldValues
  unfoldable pub indexable_field_values : Table vs.Value → Table Bytes
  indexable_field_values [] = []
  indexable_field_values ((field, value) ∷ doc) =
      let rest = indexable_field_values doc in
      if bytes_eq field (text "_id") || vs.is_nested_value value
      then rest
      else insert field (vs.sprint value) rest

  -- IndexDocument
  unfoldable pub index_document : Bytes → Table vs.Value → Indexes → Indexes
  unfolding indexable_field_values add_all
  index_document id doc m = add_all id (indexable_field_values doc) m

  -- RemoveDocument
  unfoldable pub remove_document : Bytes → Table vs.Value → Indexes → Indexes
  unfolding indexable_field_values remove_all
  remove_document id doc m = remove_all id (indexable_field_values doc) m

  -- UpdateDocument
  unfoldable pub update_document : Bytes → Table vs.Value → Table vs.Value → Indexes → Indexes
  unfolding indexable_field_values add_all remove_all
  update_document id old new m =
      add_all id (indexable_field_values new) (remove_all id (indexable_field_values old) m)
