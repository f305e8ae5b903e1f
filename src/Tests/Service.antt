-- ===== src/Tests/Service.antt =====
-- A document that is created, found and deleted.
use cluster_db.Prelude.{ℕ, zero, suc, ◌≡◌, ap, ◌∙◌, sym, refl, false, some, ok, ◌>>=◌, inl}
use cluster_db.Prelude.{List, [], ◌∷◌, All}
use mathlib.Core.Path.{subst}
use cluster_db.Prelude.Bytes.{Bytes, text, bytes_eq}
use cluster_db.Prelude.Table.{Table, lookup, insert, keys}
use cluster_db.Storage.Manager.{store_put, check_manager, delegate}
use cluster_db.Memory.Engine.{check_open, validate_key, on_disk}
use cluster_db.Memory.Lifecycle.{append_wal, maybe_checkpoint}
use cluster_db.Memory.Ops.{put, commit, put_record}
use cluster_db.Memory.Scan.{insert_sorted, sort_strings}
use cluster_db.Os.Disk.{now}
use cluster_db.Document.Index.{
  Values, lookup_ids, index_document, add_all, add_id, indexable_field_values,
}
use cluster_db.Document.Service.{
  Json, Service, with_id, create_with_id, get_document, find_by_field,
}
use cluster_db.Document.Service.Stored.{IsReadBack, HasId, get_document-create_with_id}
use cluster_db.Document.Service.Pages.{page, IsReadable, present, find_by_field-page}
use cluster_db.Tests.Memory.{steady}
use cluster_db.Tests.Kv.{opened}

-- Values that are texts, with a form that ends each text by 0.
abbrev pub texts : Values
texts = record { Value = Bytes; sprint = λ v. v; is_nested_value = λ v. false }

unfoldable pub write : Bytes → Bytes → Bytes
write [] rest = 0 ∷ rest
write (c ∷ s) rest = suc c ∷ write s rest

abbrev onto : ℕ → List Bytes → List Bytes
onto c [] = []
onto c (p ∷ ps) = (c ∷ p) ∷ ps

unfoldable pub read : Bytes → List Bytes
read [] = []
read (zero ∷ s) = [] ∷ read s
read (suc c ∷ s) = onto c (read s)

unfoldable pub write_all : Table Bytes → Bytes
unfolding write
write_all [] = []
write_all ((k, v) ∷ t) = write k (write v (write_all t))

unfoldable pub in_pairs : List Bytes → Table Bytes
in_pairs (k ∷ v ∷ s) = (k, v) ∷ in_pairs s
in_pairs _ = []

read-write : (k rest : Bytes) → read (write k rest) ≡ k ∷ read rest
unfolding read write
read-write [] rest = refl
read-write (c ∷ s) rest = ap (onto c) (read-write s rest)

in_pairs-write_all : (t : Table Bytes) → in_pairs (read (write_all t)) ≡ t
unfolding write_all in_pairs
in_pairs-write_all [] = unfold read in refl
in_pairs-write_all ((k, v) ∷ t) =
    ap in_pairs (read-write k (write v (write_all t)))
    ∙ ap (λ (x : List Bytes). in_pairs (k ∷ x)) (read-write v (write_all t))
    ∙ ap (λ (x : Table Bytes). (k, v) ∷ x) (in_pairs-write_all t)

abbrev pub plain : Json texts
plain = record {
  string_value = λ s. s;
  marshal = λ d. some (write_all d);
  unmarshal = λ b. some (in_pairs (read b));
}

pub reads : (d : Table Bytes) → IsReadBack texts plain d
reads d b e =
    let same : write_all d ≡ b = cc e in
    (
      d,
      ap (λ (x : Bytes). some (in_pairs (read x))) (sym same) ∙ ap some (in_pairs-write_all d),
      λ k. refl,
    )

abbrev pub empty : Service
empty = record { manager = opened; indexes = [] }

abbrev pub red : Table Bytes
red = (text "colour", text "red") ∷ []

abbrev pub one : Service
one = (create_with_id texts plain steady (text "1") red empty).1

one_created : (create_with_id texts plain steady (text "1") red empty).0 ≡ ok tt
unfolding create_with_id with_id store_put check_manager delegate put commit validate_key check_open
    on_disk now append_wal maybe_checkpoint ◌>>=◌ put_record insert lookup bytes_eq write_all
one_created = refl

get_document-create_with_id_example :
    (d : Table Bytes) × HasId texts plain (text "1") red d
    × ((get_document texts plain steady (text "1") one).0 ≡ ok d)
get_document-create_with_id_example =
    get_document-create_with_id texts plain steady (text "1") empty red
      (reads (with_id texts plain (text "1") red)) one_created

one_found : lookup_ids (text "colour") (text "red") one.indexes ≡ text "1" ∷ []
unfolding create_with_id with_id store_put check_manager delegate put commit validate_key check_open
    on_disk now append_wal maybe_checkpoint ◌>>=◌ put_record write_all lookup_ids index_document
    add_all add_id indexable_field_values insert lookup keys sort_strings insert_sorted bytes_eq
one_found = refl

one_doc :
    (d : Table Bytes) × HasId texts plain (text "1") red d
    × ((get_document texts plain steady (text "1") one).0 ≡ ok d)
one_doc =
    get_document-create_with_id texts plain steady (text "1") empty red
      (reads (with_id texts plain (text "1") red)) one_created

pub one-IsReadable :
    All (IsReadable texts plain steady one) (lookup_ids (text "colour") (text "red") one.indexes)
one-IsReadable =
    subst (All (IsReadable texts plain steady one)) (sym one_found) (inl (one_doc.0, one_doc.2), tt)

red_paged :
    (find_by_field texts plain steady (text "colour") (text "red") (some 1) 0 one).0
    ≡ ok (
        page
          (some 1)
          0
          (present texts plain steady one (lookup_ids (text "colour") (text "red") one.indexes)))
red_paged =
    find_by_field-page texts plain steady one (text "colour") (text "red") (some 1) 0 one-IsReadable
