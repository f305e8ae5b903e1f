-- ===== src/Tests/Document.antt =====
-- The index beside a few documents.
use cluster_db.Prelude.{◌≡◌, refl, false, [], ◌∷◌}
use cluster_db.Prelude.Bytes.{Bytes, text, bytes_eq}
use cluster_db.Prelude.Table.{Table, lookup, insert, remove, keys}
use cluster_db.Memory.Scan.{insert_sorted, sort_strings}
use cluster_db.Document.Index.{
  Indexes, Values, lookup_ids, index_document, update_document, add_all, remove_all, add_id,
  remove_id, remove_from_field, remove_from_set, indexable_field_values,
}
use cluster_db.Document.Index.Exact.{Documents}

-- Values that are texts.
abbrev texts : Values
texts = record { Value = Bytes; sprint = λ v. v; is_nested_value = λ v. false }

abbrev red : Table Bytes
red = (text "_id", text "1") ∷ (text "colour", text "red") ∷ []

abbrev blue : Table Bytes
blue = (text "_id", text "1") ∷ (text "colour", text "blue") ∷ []

abbrev index_two : Indexes
index_two =
    index_document texts (text "2") red
      (update_document texts (text "1") red blue (index_document texts (text "1") red []))

abbrev documents_two : Documents texts
documents_two = insert (text "2") red (insert (text "1") blue (insert (text "1") red []))

found_red : lookup_ids (text "colour") (text "red") index_two ≡ text "2" ∷ []
unfolding lookup_ids index_document update_document lookup insert remove keys bytes_eq sort_strings
    insert_sorted add_all remove_all add_id remove_id remove_from_field remove_from_set
    indexable_field_values
found_red = refl
