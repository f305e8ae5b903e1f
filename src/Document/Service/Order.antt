-- ===== src/Document/Service/Order.antt =====
-- The order of findSorted, and what a stable sort makes of a list.
use cluster_db.Prelude.{ℕ, ◌+◌, ◌≡◌, refl, sym, ◌∙◌, arith, Bool, true, false, not, ◌&&◌}
use cluster_db.Prelude.{
  Option, none, some, List, [], ◌∷◌, All, select, ◌==◌, if◌then◌else◌, Bool-cases, inl, inr,
}
use cluster_db.Prelude.Bytes.{Bytes, bytes_lt}
use cluster_db.Prelude.Table.{Table, lookup}
use cluster_db.Document.Index.{Values}
use cluster_db.Document.Service.Query.{Kinds, less_values, less_by_field, sort_documents}

module _ {A : Type 0} where
  -- How many elements pass a test.
  abbrev pub tally : (A → Bool) → List A → ℕ
  tally p [] = 0
  tally p (x ∷ xs) = (if p x then 1 else 0) + tally p xs

  -- A strict weak order of the elements that satisfy a predicate.
  pub record IsWeakOrder (less : A → A → Bool) (P : A → Type 0) : Type 0 where
    pub asymmetric : (x y : A) → P x → P y → less x y ≡ true → less y x ≡ false
    pub negative :
        (x y z : A) → P x → P y → P z → less x y ≡ false → less y z ≡ false → less x z ≡ false

  -- No element stands behind one that it is less than.
  abbrev pub IsInOrder : (A → A → Type 0) → List A → Type 0
  IsInOrder before [] = Unit {0}
  IsInOrder before (x ∷ xs) = All (before x) xs × IsInOrder before xs

  -- The same elements, as often, in order, where elements that are equal to each other keep theirs.
  pub record IsStableSort (less : A → A → Bool) (P : A → Type 0) (xs ys : List A) : Type 0 where
    pub same : (p : A → Bool) → tally p ys ≡ tally p xs
    pub ordered : IsInOrder (λ x y. less y x ≡ false) ys
    pub stable :
        (p : A → Bool)
        → ((x y : A) → P x → P y → p x ≡ true → p y ≡ true → less x y ≡ false)
        → select p ys ≡ select p xs
    pub keeps : All P ys

  IsInOrder-map :
      (Q R : A → A → Type 0) (P : A → Type 0) (xs : List A)
      → ((x y : A) → P x → P y → Q x y → R x y)
      → All P xs
      → IsInOrder Q xs
      → IsInOrder R xs
  IsInOrder-map Q R P [] f a h = tt
  IsInOrder-map Q R P (x ∷ xs) f a h = (each xs a.1 h.0, IsInOrder-map Q R P xs f a.1 h.1)
    where
      each : (ys : List A) → All P ys → All (Q x) ys → All (R x) ys
      each [] b g = tt
      each (y ∷ ys) b g = (f x y a.0 b.0 g.0, each ys b.1 g.1)

module _ (vs : Values) (k : Kinds vs) where
  abbrev Doc : Type 0
  Doc = Table vs.Value

  -- What sort.SliceStable promises: over elements on which `less` is a strict weak order it sorts
  -- them, and stably.
  abbrev pub SortsStably : Type 1
  SortsStably =
      (less : Doc → Doc → Bool)
      → (P : Doc → Type 0) → (docs : List Doc) → IsWeakOrder less P
      → All P docs
      → IsStableSort less P docs (k.sort_stable less docs)

  -- The value of a field; nil is as none.
  abbrev pub shown : Bytes → Doc → Option vs.Value
  shown field d = elim (lookup field d) [
    | none ↦ none
    | some v ↦ if k.is_nil v then none else some v
  ]

  -- In what way a document stands in front of another: a text is not above the other's, or not below
  -- it where the order descends, numbers and truth values alike, and one that has not the field
  -- stands behind all that have it.
  pub record IsBefore (field : Bytes) (descending : Bool) (x y : Doc) : Type 0 where
    pub texts :
        (v w : vs.Value) (a b : Bytes)
        → shown field x ≡ some v
        → shown field y ≡ some w
        → k.as_string v ≡ some a
        → k.as_string w ≡ some b
        → (if descending then bytes_lt a b else bytes_lt b a) ≡ false
    pub numbers :
        (v w : vs.Value) (a b : k.Number)
        → shown field x ≡ some v
        → shown field y ≡ some w
        → k.as_string w ≡ none
        → k.as_number v ≡ some a
        → k.as_number w ≡ some b
        → (if descending then k.below a b else k.below b a) ≡ false
    pub truths :
        (v w : vs.Value) (a b : Bool)
        → shown field x ≡ some v
        → shown field y ≡ some w
        → k.as_string w ≡ none
        → k.as_number w ≡ none
        → k.as_bool v ≡ some a
        → k.as_bool w ≡ some b
        → (if descending then b && not a else a && not b) ≡ false
    pub absent : shown field x ≡ none → shown field y ≡ none

  less_shown :
      (field : Bytes) (descending : Bool) (x y : Doc) (v w : vs.Value)
      → shown field x ≡ some v
      → shown field y ≡ some w
      → less_by_field vs k field descending y x ≡ less_values vs k descending w v
  unfolding less_by_field
  less_shown field descending x y v w p q = ground (arith, p, q)

  text_values :
      (descending : Bool) (v w : vs.Value) (a b : Bytes)
      → k.as_string v ≡ some a
      → k.as_string w ≡ some b
      → less_values vs k descending w v ≡ (if descending then bytes_lt a b else bytes_lt b a)
  unfolding less_values
  text_values true v w a b p q = rw (less_values, q, p) refl
  text_values false v w a b p q = rw (less_values, q, p) refl

  number_values :
      (descending : Bool) (v w : vs.Value) (a b : k.Number)
      → k.as_string w ≡ none
      → k.as_number v ≡ some a
      → k.as_number w ≡ some b
      → less_values vs k descending w v ≡ (if descending then k.below a b else k.below b a)
  unfolding less_values
  number_values true v w a b t p q = rw (less_values, t, q, p) refl
  number_values false v w a b t p q = rw (less_values, t, q, p) refl

  truth_values :
      (descending : Bool) (v w : vs.Value) (a b : Bool)
      → k.as_string w ≡ none
      → k.as_number w ≡ none
      → k.as_bool v ≡ some a
      → k.as_bool w ≡ some b
      → less_values vs k descending w v ≡ (if descending then b && not a else a && not b)
  unfolding less_values
  truth_values true v w a b t n p q = ground (arith, t, n, q, p)
  truth_values false v w a b t n p q = ground (arith, t, n, q, p)

  absent_last :
      (field : Bytes) (descending : Bool) (x y : Doc)
      → less_by_field vs k field descending y x ≡ false
      → shown field x ≡ none
      → shown field y ≡ none
  unfolding less_by_field
  absent_last field descending x y l e = ground (arith, l, e)

  IsBefore-less_by_field :
      (field : Bytes) (descending : Bool) (x y : Doc)
      → less_by_field vs k field descending y x ≡ false
      → IsBefore field descending x y
  IsBefore-less_by_field field descending x y l = record {
    texts = λ v w a b p q s t.
        sym (text_values descending v w a b s t)
        ∙ sym (less_shown field descending x y v w p q)
        ∙ l;
    numbers = λ v w a b p q n s t.
        sym (number_values descending v w a b n s t)
        ∙ sym (less_shown field descending x y v w p q)
        ∙ l;
    truths = λ v w a b p q n m s t.
        sym (truth_values descending v w a b n m s t)
        ∙ sym (less_shown field descending x y v w p q)
        ∙ l;
    absent = absent_last field descending x y l;
  }

  -- A list of documents that is sorted by a field: the same documents as those that were found, as
  -- often, each in front of those behind it, and where any have the same value or lack the field,
  -- these in the order in which they were found.
  pub record IsSortedBy (field : Bytes) (descending : Bool) (found docs : List Doc) : Type 0 where
    pub same : (p : Doc → Bool) → tally p docs ≡ tally p found
    pub ordered : IsInOrder (IsBefore field descending) docs
    pub stable :
        (p : Doc → Bool)
        → ((x y : Doc) → p x ≡ true → p y ≡ true → lookup field x ≡ lookup field y)
        → select p docs ≡ select p found

  -- The sort field names a field with a minus in front where the order descends; without one the
  -- documents stay as they are.
  abbrev pub IsArranged : Bytes → List Doc → List Doc → Type 0
  IsArranged [] found docs = docs ≡ found
  IsArranged (c ∷ f) found docs = IsSortedBy (if c == b'-' then f else c ∷ f) (c == b'-') found docs

  -- On the documents that satisfy P, findSorted compares by a strict weak order.
  abbrev pub IsComparable : Bytes → (Doc → Type 0) → Type 0
  IsComparable [] P = Unit {0}
  IsComparable (c ∷ f) P =
      IsWeakOrder (less_by_field vs k (if c == b'-' then f else c ∷ f) (c == b'-')) P

  not_below_itself :
      (less : Doc → Doc → Bool) (P : Doc → Type 0) (x : Doc)
      → IsWeakOrder less P
      → P x
      → less x x ≡ false
  not_below_itself less P x w h = elim (Bool-cases (less x x)) [
    | inl e ↦ w.asymmetric x x h h e
    | inr e ↦ e
  ]

  same_value :
      (field : Bytes) (descending : Bool) (x y : Doc)
      → lookup field x ≡ lookup field y
      → less_by_field vs k field descending x y ≡ less_by_field vs k field descending x x
  unfolding less_by_field
  same_value field descending x y e = ground (arith, e)

  sorted_by :
      (field : Bytes) (descending : Bool) (P : Doc → Type 0) (found docs : List Doc)
      → IsWeakOrder (less_by_field vs k field descending) P
      → IsStableSort (less_by_field vs k field descending) P found docs
      → IsSortedBy field descending found docs
  sorted_by field descending P found docs w r = record {
    same = r.same;
    ordered =
        IsInOrder-map _ _ P docs (λ x y a b l. IsBefore-less_by_field field descending x y l)
          r.keeps r.ordered;
    stable = λ p e. r.stable p (λ x y a b u v.
        same_value field descending x y (e x y u v)
        ∙ not_below_itself (less_by_field vs k field descending) P x w a);
  }

  pub sort_documents-IsArranged :
      (sort_field : Bytes) (P : Doc → Type 0) (found : List Doc)
      → SortsStably
      → IsComparable sort_field P
      → All P found
      → IsArranged sort_field found (sort_documents vs k sort_field found)
  unfolding sort_documents
  sort_documents-IsArranged [] P found s w h = refl
  sort_documents-IsArranged (c ∷ f) P found s w h = directed_by (c == b'-') w
    where
      directed_by :
          (b : Bool)
          → IsWeakOrder (less_by_field vs k (if b then f else c ∷ f) b) P
          → IsSortedBy (if b then f else c ∷ f) b found (
              k.sort_stable
                (if b then less_by_field vs k f true else less_by_field vs k (c ∷ f) false)
                found)
      directed_by true w = sorted_by f true P found _ w (s _ P found w h)
      directed_by false w = sorted_by (c ∷ f) false P found _ w (s _ P found w h)
