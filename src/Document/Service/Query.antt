-- ===== src/Document/Service/Query.antt =====
-- internal/document/service/service.go: sorted queries and aggregates.
use cluster_db.Prelude.{
  ℕ, ◌+◌, ◌^◌, Bool, true, false, not, ◌&&◌, Option, none, some, Result, ok, err,
}
use cluster_db.Prelude.{List, [], ◌∷◌, length, take, drop, ltb, leb, ◌==◌, ◌||◌, if◌then◌else◌}
use cluster_db.Prelude.Bytes.{Bytes, text, bytes_eq, bytes_lt}
use cluster_db.Prelude.Table.{Table, lookup}
use cluster_db.Os.Disk.{Os}
use cluster_db.Document.Index.{Values, lookup_ids}
use cluster_db.Document.Service.{
  Json, Service, ServiceError, invalid_aggregate, slice_panic, is_missing, get_document,
  find_by_field,
}

-- The dynamic types of values, numbers of float64 with their operations, and sort.SliceStable.
-- `numeric` is the value of any number type as a float64.
pub record Kinds (vs : Values) : Type 1 where
  pub Number : Type 0
  pub as_string : vs.Value → Option Bytes
  pub as_number : vs.Value → Option Number
  pub as_bool : vs.Value → Option Bool
  pub is_nil : vs.Value → Bool
  pub numeric : vs.Value → Option Number
  pub below : Number → Number → Bool
  pub plus : Number → Number → Number
  pub over : Number → ℕ → Number
  pub nought : Number
  pub sort_stable :
      (Table vs.Value → Table vs.Value → Bool) → List (Table vs.Value) → List (Table vs.Value)

-- The pair of `less` and `greater`, by the direction.
abbrev directed : Bool → Bool → Bool → Bool
directed descending less greater = if descending then greater else less

-- SplitN(s, ":", 2), where it gives two parts.
unfoldable pub cut_colon : Bytes → Option (Bytes × Bytes)
cut_colon [] = none
cut_colon (c ∷ s) =
    let rest = cut_colon s in
    if c == b':' then some ([], s) else elim rest [ none ↦ none | some (a, b) ↦ some (c ∷ a, b) ]

-- The test of the operation.
abbrev pub is_operation : Bytes → Bool
is_operation s =
    bytes_eq s (text "sum")
    || bytes_eq s (text "avg")
    || bytes_eq s (text "min")
    || bytes_eq s (text "max")

module _ (vs : Values) (k : Kinds vs) where
  -- The type switch of lessByField.
  unfoldable pub less_values : Bool → vs.Value → vs.Value → Bool
  less_values descending l r = elim (k.as_string l) [
    | some a ↦ elim (k.as_string r) [
      | none ↦ false
      | some b ↦ directed descending (bytes_lt a b) (bytes_lt b a)
    ]
    | none ↦ elim (k.as_number l) [
      | some a ↦ elim (k.as_number r) [
        | none ↦ false
        | some b ↦ directed descending (k.below a b) (k.below b a)
      ]
      | none ↦ elim (k.as_bool l) [
        | none ↦ false
        | some a ↦ elim (k.as_bool r) [
          | none ↦ false
          | some b ↦ directed descending (not a && b) (a && not b)
        ]
      ]
    ]
  ]

  -- lessByField
  unfoldable pub less_by_field : Bytes → Bool → Table vs.Value → Table vs.Value → Bool
  unfolding less_values
  less_by_field field descending left right = elim (lookup field left) [
    | none ↦ false
    | some l ↦ if k.is_nil l then false else elim (lookup field right) [
      | none ↦ true
      | some r ↦ if k.is_nil r then true else less_values descending l r
    ]
  ]

  -- The sort of findSorted, by a sort field that is not empty.
  unfoldable pub sort_documents : Bytes → List (Table vs.Value) → List (Table vs.Value)
  sort_documents [] docs = docs
  sort_documents (c ∷ field) docs =
      k.sort_stable
        (if c == b'-' then less_by_field field true else less_by_field (c ∷ field) false) docs

  -- The values that AggregateDocuments takes.
  unfoldable pub numeric_values : Bytes → List (Table vs.Value) → List k.Number
  numeric_values field [] = []
  numeric_values field (doc ∷ docs) =
      let rest = numeric_values field docs in
      elim (lookup field doc) [
        | none ↦ rest
        | some v ↦ elim (k.numeric v) [ none ↦ rest | some n ↦ n ∷ rest ]
      ]

  unfoldable pub sum_of : k.Number → List k.Number → k.Number
  sum_of acc [] = acc
  sum_of acc (n ∷ ns) = sum_of (k.plus acc n) ns

  unfoldable pub minimum_of : k.Number → List k.Number → k.Number
  minimum_of acc [] = acc
  minimum_of acc (n ∷ ns) = minimum_of (if k.below n acc then n else acc) ns

  unfoldable pub maximum_of : k.Number → List k.Number → k.Number
  maximum_of acc [] = acc
  maximum_of acc (n ∷ ns) = maximum_of (if k.below acc n then n else acc) ns

  -- What AggregateDocuments returns: the fields of the map.
  pub data Aggregate : Type 0 where
    counted : ℕ → Aggregate
    no_value : Bytes → Aggregate
    summed averaged least greatest : Bytes → k.Number → Aggregate

  -- The switch of AggregateDocuments, over the values `n ∷ ns`.
  unfoldable pub aggregate_values : Bytes → Bytes → k.Number → List k.Number → Aggregate
  aggregate_values operation field n ns =
      if bytes_eq operation (text "sum")
      then summed field (sum_of k.nought (n ∷ ns))
      else if bytes_eq operation (text "avg")
      then averaged field (k.over (sum_of k.nought (n ∷ ns)) (length (n ∷ ns)))
      else if bytes_eq operation (text "min")
      then least field (minimum_of n ns)
      else greatest field (maximum_of n ns)

  -- AggregateDocuments
  unfoldable pub aggregate_documents : List (Table vs.Value) → Bytes → Result ServiceError Aggregate
  unfolding aggregate_values numeric_values
  aggregate_documents docs aggregate =
      if bytes_eq aggregate (text "count")
      then ok (counted (length docs))
      else elim (cut_colon aggregate) [
        | none ↦ err invalid_aggregate
        | some (operation, field) ↦
            if length field == 0 || not (is_operation operation)
            then err invalid_aggregate
            else ok (elim (numeric_values field docs) [
              | [] ↦ no_value field
              | n ∷ ns ↦ aggregate_values operation field n ns
            ])
      ]

-- The page of findSorted. `offset + limit` is an int: past 2 ^ 63 it is negative, and so is the end
-- of the slice.
unfoldable pub slice_page {ℓ} : {A : Type ℓ} → Option ℕ → ℕ → List A → Result ServiceError (List A)
slice_page none offset xs = ok (if leb (length xs) offset then [] else drop offset xs)
slice_page (some limit) offset xs =
    if leb (length xs) offset
    then ok []
    else if leb (2 ^ 63) (offset + limit)
    then err slice_panic
    else ok
        (if ltb (offset + limit) (length xs) then take limit (drop offset xs) else drop offset xs)

module _ (vs : Values) (js : Json vs) (k : Kinds vs) (os : Os) where
  -- The loop of findSorted.
  unfoldable pub find_all :
      List Bytes → Service → Result ServiceError (List (Table vs.Value)) × Service
  find_all [] s = (ok [], s)
  find_all (id ∷ ids) s =
      let g = get_document vs js os id s in
      let rest = find_all ids g.1 in
      elim g.0 [
        | err e ↦ if is_missing e then rest else (err e, g.1)
        | ok doc ↦ (elim rest.0 [ err e ↦ err e | ok docs ↦ ok (doc ∷ docs) ], rest.1)
      ]

  -- findSorted, at an offset that is not below 0: the HTTP handler refuses any other, at which the
  -- slice of the source panics.
  unfoldable pub find_sorted :
      List Bytes
      → Option ℕ
      → ℕ
      → Bytes
      → Service
      → Result ServiceError (List (Table vs.Value)) × Service
  unfolding find_all slice_page sort_documents
  find_sorted ids limit offset sort_field s =
      let r = find_all ids s in
      (
        elim r.0 [
          | err e ↦ err e
          | ok docs ↦ slice_page limit offset (sort_documents vs k sort_field docs)
        ],
        r.1,
      )

  -- FindByField with its three options; a limit below 0 is `none`.
  unfoldable pub find_documents :
      Bytes
      → Bytes
      → Option ℕ
      → ℕ
      → Bytes
      → Service
      → Result ServiceError (List (Table vs.Value)) × Service
  unfolding find_sorted
  find_documents field value limit offset sort_field s =
      if length sort_field == 0
      then find_by_field vs js os field value limit offset s
      else find_sorted (lookup_ids field value s.indexes) limit offset sort_field s

  -- AggregateByField
  unfoldable pub aggregate_by_field :
      Bytes → Bytes → Bytes → Bytes → Service → Result ServiceError (Aggregate vs k) × Service
  unfolding find_documents
  aggregate_by_field field value aggregate sort_field s =
      let r = find_documents field value none 0 sort_field s in
      (elim r.0 [ err e ↦ err e | ok docs ↦ aggregate_documents vs k docs aggregate ], r.1)
