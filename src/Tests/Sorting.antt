-- ===== src/Tests/Sorting.antt =====
-- Documents of texts that are found sorted by a field.
use cluster_db.Prelude.{ℕ, Bool, true, false, Option, none, some, List, [], ◌∷◌, ltb, ◌+◌}
use cluster_db.Prelude.Bytes.{Bytes, text, bytes_lt}
use cluster_db.Prelude.Table.{Table}
use cluster_db.Document.Index.{lookup_ids}
use cluster_db.Document.Service.{Service, create_with_id}
use cluster_db.Document.Service.Pages.{present}
use cluster_db.Document.Service.Query.{Kinds}
use cluster_db.Tests.Arranged.{arrange}
use cluster_db.Tests.Memory.{steady}
use cluster_db.Tests.Service.{texts, plain, empty}

-- Every value is a text.
abbrev pub only_texts : Kinds texts
only_texts = record {
  Number = ℕ;
  as_string = λ v. some v;
  as_number = λ v. none;
  as_bool = λ v. none;
  is_nil = λ v. false;
  numeric = λ v. none;
  below = ltb;
  plus = λ a b. a + b;
  over = λ a n. a;
  nought = 0;
  sort_stable = λ less docs. arrange less docs;
}

-- Any two documents compare.
abbrev Whatever : Table Bytes → Type 0
Whatever d = Unit

-- The order of the field's values, the greatest first and none last.
abbrev above : Option Bytes → Option Bytes → Bool
above a b = elim a [ none ↦ false | some l ↦ elim b [ none ↦ true | some r ↦ bytes_lt r l ] ]

abbrev sized : Bytes → Table Bytes
sized n = (text "colour", text "red") ∷ (text "size", n) ∷ []

abbrev pair : Service
pair =
    (create_with_id texts plain steady (text "2") (sized (text "7"))
      (create_with_id texts plain steady (text "1") (sized (text "5")) empty).1).1

abbrev found : List (Table Bytes)
found = present texts plain steady pair (lookup_ids (text "colour") (text "red") pair.indexes)
