-- ===== src/Document/Service/Pages.antt =====
-- What FindByField returns: a page of the documents that the index names and the store has.
use cluster_db.Prelude.{
  ℕ, zero, suc, ◌+◌, ◌-◌, ◌≤◌, ◌<◌, ◌≡◌, ◌⊎◌, inl, inr, refl, sym, ap, ◌∙◌, arith, true,
}
use cluster_db.Prelude.{
  Option, none, some, Result, ok, err, Bool-cases, List, [], ◌∷◌, All, take, drop, ltb, ◌==◌,
}
use cluster_db.Prelude.Bytes.{Bytes}
use cluster_db.Prelude.Table.{Table}
use cluster_db.Storage.Manager.{StorageManager}
use cluster_db.Storage.Manager.Laws.{store_get_same}
use cluster_db.Os.Disk.{Os}
use cluster_db.Document.Index.{Values, lookup_ids}
use cluster_db.Document.Service.{
  Json, Service, ServiceError, is_missing, get_document, find_from, find_by_field,
}

-- From an offset on, and no more than the limit, if there is one.
abbrev pub page {ℓ} : {A : Type ℓ} → Option ℕ → ℕ → List A → List A
page none offset xs = drop offset xs
page (some limit) offset xs = take limit (drop offset xs)

module _ (vs : Values) (js : Json vs) (os : Os) (s : Service) where
  -- Get of an id answers with a document, or that there is none.
  abbrev pub IsReadable : Bytes → Type 0
  IsReadable id =
      ((doc : Table vs.Value) × ((get_document vs js os id s).0 ≡ ok doc))
      ⊎ ((e : ServiceError) × ((get_document vs js os id s).0 ≡ err e) × (is_missing e ≡ true))

  abbrev consed :
      Result ServiceError (Table vs.Value) → List (Table vs.Value) → List (Table vs.Value)
  consed (ok doc) docs = doc ∷ docs
  consed (err e) docs = docs

  -- The documents that Get finds.
  abbrev pub present : List Bytes → List (Table vs.Value)
  present [] = []
  present (id ∷ ids) = consed (get_document vs js os id s).0 (present ids)

  pub get_same : (id : Bytes) → (get_document vs js os id s).1 ≡ s
  unfolding get_document
  get_same id =
      ap (λ (m : StorageManager). record s { manager = m }) (store_get_same os s.manager id)

  -- The results that are still wanted behind `taken` of them.
  abbrev left : Option ℕ → ℕ → Option ℕ
  left none taken = none
  left (some limit) taken = some (limit - taken)

  abbrev IsOpen : Option ℕ → ℕ → Type 0
  IsOpen none taken = Unit {0}
  IsOpen (some limit) taken = (limit ≡ 0) ⊎ (taken < limit)

  find_missing :
      (limit : Option ℕ) (offset : ℕ) (id : Bytes) (ids : List Bytes) (matched taken : ℕ)
      (e : ServiceError)
      → (get_document vs js os id s).0 ≡ err e
      → is_missing e ≡ true
      → (find_from vs js os limit offset (id ∷ ids) matched taken s).0
        ≡ (find_from vs js os limit offset ids matched taken s).0
  unfolding find_from
  find_missing limit offset id ids matched taken e q k = ground (arith, q, k, get_same id)

  find_skipped :
      (limit : Option ℕ) (offset : ℕ) (id : Bytes) (ids : List Bytes) (matched taken : ℕ)
      (doc : Table vs.Value)
      → (get_document vs js os id s).0 ≡ ok doc
      → matched < offset
      → (find_from vs js os limit offset (id ∷ ids) matched taken s).0
        ≡ (find_from vs js os limit offset ids (matched + 1) taken s).0
  unfolding find_from
  find_skipped limit offset id ids matched taken doc q l = ground (arith, q, get_same id)

  -- A document behind the offset: the limit is 0, or it is reached, or the loop goes on.
  find_stopped :
      (offset : ℕ) (id : Bytes) (ids : List Bytes) (matched taken : ℕ) (doc : Table vs.Value)
      → (get_document vs js os id s).0 ≡ ok doc
      → offset ≤ matched
      → (find_from vs js os (some 0) offset (id ∷ ids) matched taken s).0 ≡ ok []
  unfolding find_from
  find_stopped offset id ids matched taken doc q l = ground (arith, q)

  find_filled :
      (limit offset : ℕ) (id : Bytes) (ids : List Bytes) (matched taken : ℕ) (doc : Table vs.Value)
      → (get_document vs js os id s).0 ≡ ok doc
      → offset ≤ matched
      → taken + 1 ≡ limit
      → (find_from vs js os (some limit) offset (id ∷ ids) matched taken s).0 ≡ ok (doc ∷ [])
  unfolding find_from
  find_filled limit offset id ids matched taken doc q l f = ground (arith, q)

  find_taken :
      (limit : Option ℕ) (offset : ℕ) (id : Bytes) (ids : List Bytes) (matched taken : ℕ)
      (doc : Table vs.Value) (docs : List (Table vs.Value))
      → (get_document vs js os id s).0 ≡ ok doc
      → offset ≤ matched
      → (limit ≡ none) ⊎ ((n : ℕ) × (limit ≡ some n) × (taken + 1 < n))
      → (find_from vs js os limit offset ids (matched + 1) (taken + 1) s).0 ≡ ok docs
      → (find_from vs js os limit offset (id ∷ ids) matched taken s).0 ≡ ok (doc ∷ docs)
  unfolding find_from
  find_taken none offset id ids matched taken doc docs q l o r = ground (arith, q, r, get_same id)
  find_taken (some n) offset id ids matched taken doc docs q l (inl o) r = absurd (cc o)
  find_taken (some n) offset id ids matched taken doc docs q l (inr o) r =
      ground (arith, q, r, get_same id, o)

  page_skip :
      {A : Type 0} (limit : Option ℕ) (offset matched : ℕ) (x : A) (xs : List A)
      → matched < offset
      → page limit (offset - matched) (x ∷ xs) ≡ page limit (offset - (matched + 1)) xs
  page_skip limit offset matched x xs l =
      let e : offset - matched ≡ suc (offset - (matched + 1)) = omega (arith, l) in
      ap (λ (n : ℕ). page limit n (x ∷ xs)) e ∙ skip limit
    where
      skip :
          (limit : Option ℕ)
          → page limit (suc (offset - (matched + 1))) (x ∷ xs)
            ≡ page limit (offset - (matched + 1)) xs
      skip none = refl
      skip (some n) = refl

  page_start :
      {A : Type 0} (limit : Option ℕ) (offset matched : ℕ) (xs : List A)
      → offset ≤ matched
      → page limit (offset - matched) xs ≡ page limit 0 xs
  page_start limit offset matched xs l =
      let e : offset - matched ≡ 0 = omega (arith, l) in ap (λ (n : ℕ). page limit n xs) e

  drop_nil : {A : Type 0} (n : ℕ) → drop {A = A} n [] ≡ []
  drop_nil zero = refl
  drop_nil (suc n) = refl

  page_nil : {A : Type 0} (limit : Option ℕ) (n : ℕ) → page {A = A} limit n [] ≡ []
  page_nil none n = drop_nil n
  page_nil (some zero) n = refl
  page_nil {A} (some (suc l)) n = ap (λ (xs : List A). take (suc l) xs) (drop_nil n)

  -- A document behind the offset, given what the rest of the loop does.
  find_here :
      (limit : Option ℕ) (offset : ℕ) (id : Bytes) (ids : List Bytes) (matched taken : ℕ)
      (doc : Table vs.Value)
      → (get_document vs js os id s).0 ≡ ok doc
      → offset ≤ matched
      → IsOpen limit taken
      → (IsOpen limit (taken + 1)
          → (find_from vs js os limit offset ids (matched + 1) (taken + 1) s).0
            ≡ ok (page (left limit (taken + 1)) (offset - (matched + 1)) (present ids)))
      → (find_from vs js os limit offset (id ∷ ids) matched taken s).0
        ≡ ok (page (left limit taken) (offset - matched) (doc ∷ present ids))
  find_here none offset id ids matched taken doc q l o rest =
      find_taken none offset id ids matched taken doc (present ids) q l (inl refl)
        (rest tt ∙ ap ok (page_start none offset (matched + 1) (present ids) (omega (arith, l))))
      ∙ ap ok (sym (page_start none offset matched (doc ∷ present ids) l))
  find_here (some zero) offset id ids matched taken doc q l o rest =
      let none_left : 0 ≡ 0 - taken = omega arith in
      find_stopped offset id ids matched taken doc q l
      ∙ ap (λ (n : ℕ). ok (take n (drop (offset - matched) (doc ∷ present ids)))) none_left
  find_here (some (suc n)) offset id ids matched taken doc q l o rest =
      let open_here : taken < suc n = elim o [ inl e ↦ absurd (omega (arith, e)) | inr e ↦ e ] in
      let one_left : (taken + 1 ≡ suc n) → suc n - taken ≡ 1 = λ e. omega (arith, e) in
      elim (Bool-cases (taken + 1 == suc n)) [
        | inl full ↦
            let f : taken + 1 ≡ suc n = ground (arith, full) in
            find_filled (suc n) offset id ids matched taken doc q l f
            ∙ ap (λ (k : ℕ). ok (take k (doc ∷ present ids))) (sym (one_left f))
            ∙ ap ok (sym (page_start (some (suc n - taken)) offset matched (doc ∷ present ids) l))
        | inr more ↦
            let m : taken + 1 < suc n = ground (arith, more, open_here) in
            find_taken (some (suc n)) offset id ids matched taken doc
              (take (suc n - (taken + 1)) (present ids)) q l (inr (suc n, refl, m))
              (rest (inr m)
                ∙ ap ok (
                    page_start (some (suc n - (taken + 1))) offset (matched + 1) (present ids)
                      (omega (arith, l))))
            ∙ ap (λ (k : ℕ). ok (take k (doc ∷ present ids))) (step n m)
            ∙ ap ok (sym (page_start (some (suc n - taken)) offset matched (doc ∷ present ids) l))
      ]
    where
      step : (n : ℕ) → taken + 1 < suc n → suc (suc n - (taken + 1)) ≡ suc n - taken
      step n m = omega (arith, m)

  find_page :
      (limit : Option ℕ) (offset : ℕ) (ids : List Bytes) (matched taken : ℕ)
      → All IsReadable ids
      → IsOpen limit taken
      → (find_from vs js os limit offset ids matched taken s).0
        ≡ ok (page (left limit taken) (offset - matched) (present ids))
  unfolding find_from
  find_page limit offset [] matched taken r o =
      ap ok (sym (page_nil (left limit taken) (offset - matched)))
  find_page limit offset (id ∷ ids) matched taken r o = elim r.0 [
    | inr (e, q, k) ↦
        find_missing limit offset id ids matched taken e q k
        ∙ find_page limit offset ids matched taken r.1 o
        ∙ rw q refl
    | inl (doc, q) ↦ elim (Bool-cases (ltb matched offset)) [
      | inl l ↦
          find_skipped limit offset id ids matched taken doc q (ground (arith, l))
          ∙ find_page limit offset ids (matched + 1) taken r.1 o
          ∙ rw q (
              ap ok (
                sym (
                  page_skip (left limit taken) offset matched doc (present ids)
                    (ground (arith, l)))))
      | inr l ↦
          find_here limit offset id ids matched taken doc q (ground (arith, l)) o
            (find_page limit offset ids (matched + 1) (taken + 1) r.1)
          ∙ rw q refl
    ]
  ]

  -- FindByField without a sort field returns the documents that the store has of those that the
  -- index names, in the order of their ids, from the offset on and no more than the limit. Every
  -- id that the index names can be read or is missing in the store.
  pub find_by_field-page :
      (field value : Bytes) (limit : Option ℕ) (offset : ℕ)
      → All IsReadable (lookup_ids field value s.indexes)
      → (find_by_field vs js os field value limit offset s).0
        ≡ ok (page limit offset (present (lookup_ids field value s.indexes)))
  unfolding find_by_field
  find_by_field-page field value limit offset r =
      let ids = lookup_ids field value s.indexes in
      let from_start : offset - 0 ≡ offset = omega arith in
      find_page limit offset ids 0 0 r (wanted limit)
      ∙ ap (λ (n : ℕ). ok (page (left limit 0) n (present ids))) from_start
      ∙ ap (λ (x : Option ℕ). ok (page x offset (present ids))) (whole limit)
    where
      wanted : (limit : Option ℕ) → IsOpen limit 0
      wanted none = tt
      wanted (some zero) = inl refl
      wanted (some (suc n)) = inr (omega arith)

      whole : (limit : Option ℕ) → left limit 0 ≡ limit
      whole none = refl
      whole (some n) = let e : n - 0 ≡ n = omega arith in ap some e
