-- ===== src/HashRing/Lookup.antt =====
-- GetNode finds the successor on the ring; a removed node takes only its own keys along.
use cluster_db.Prelude.{
  ℕ, zero, suc, ◌≤◌, ◌<◌, ◌≡◌, refl, sym, ap, ◌∙◌, arith, Bool, true, false, not,
}
use cluster_db.Prelude.{List, [], ◌∷◌, length, select, All, get_elem?, Option, none, some}
use cluster_db.Prelude.{leb, ◌==◌, if◌then◌else◌, Bool-cases, inl, inr}
use cluster_db.Prelude.Bytes.{Bytes, bytes_eq}
use cluster_db.Wal.Crc.{crc32}
use cluster_db.HashRing.Search.{search, IsFirst, IsMonotone, search-IsFirst}
use cluster_db.HashRing.Ring.{
  Entry, HashRing, IsSorted, key_or_zero, node_of, start_index, get_node, remove_node,
}
use cluster_db.HashRing.Invariant.{IsValid, remove_node-IsValid}

-- The node of the first entry at or behind a hash.
unfoldable pub first_from : ℕ → List Entry → Option Bytes
first_from h [] = none
first_from h (x ∷ xs) = if leb h x.key then some x.node else first_from h xs

abbrev pub first_node : List Entry → Option Bytes
first_node [] = none
first_node (x ∷ xs) = some x.node

-- The successor of a hash: the first entry at or behind it, and past the last one the first of all.
unfoldable pub successor : ℕ → List Entry → Option Bytes
successor h ring = elim (first_from h ring) [ some n ↦ some n | none ↦ first_node ring ]

at_least : ℕ → List Entry → ℕ → Bool
at_least h ring i = leb h (key_or_zero (get_elem? ring i))

key_mono :
    (ring : List Entry) (i j : ℕ)
    → IsSorted ring
    → i ≤ j
    → j < length ring
    → key_or_zero (get_elem? ring i) ≤ key_or_zero (get_elem? ring j)
key_mono [] i j s h k = absurd (omega arith)
key_mono (x ∷ xs) zero zero s h k = omega arith
key_mono (x ∷ xs) zero (suc j) s h k = All-get xs j s.0 (omega arith)
  where
    All-get :
        (l : List Entry) (m : ℕ)
        → All (λ (y : Entry). x.key ≤ y.key) l
        → m < length l
        → x.key ≤ key_or_zero (get_elem? l m)
    All-get [] m a b = absurd (omega arith)
    All-get (y ∷ l) zero a b = a.0
    All-get (y ∷ l) (suc m) a b = All-get l m a.1 (omega arith)
key_mono (x ∷ xs) (suc i) zero s h k = absurd (omega arith)
key_mono (x ∷ xs) (suc i) (suc j) s h k = key_mono xs i j s.1 (omega arith) (omega arith)

at_least-IsMonotone :
    (h : ℕ) (ring : List Entry) → IsSorted ring → IsMonotone (at_least h ring) (length ring)
unfolding at_least
at_least-IsMonotone h ring s i j le lt t = ground (arith, key_mono ring i j s le lt)

-- The entry at the first index is the first entry at or behind the hash.
at_first :
    (h : ℕ) (ring : List Entry) (r : ℕ)
    → IsFirst (at_least h ring) (length ring) r
    → node_of (get_elem? ring r) ≡ first_from h ring
unfolding at_least first_from
at_first h [] r f = refl
at_first h (x ∷ xs) zero f = ground (arith, f.holds (omega arith))
at_first h (x ∷ xs) (suc r) f = ground (
  arith,
  f.below 0 (omega arith),
  at_first h xs r (record {
    within = omega (arith, f.within);
    below = λ k b. f.below (suc k) (omega arith);
    holds = λ b. f.holds (omega arith);
  }),
)

get_elem?-length : (ring : List Entry) → get_elem? ring (length ring) ≡ none
get_elem?-length [] = refl
get_elem?-length (x ∷ xs) = get_elem?-length xs

pub get_elem?-lt :
    (ring : List Entry) (i : ℕ) → i < length ring → (x : Entry) × (get_elem? ring i ≡ some x)
get_elem?-lt [] i h = absurd (omega arith)
get_elem?-lt (x ∷ xs) zero h = (x, refl)
get_elem?-lt (x ∷ xs) (suc i) h = get_elem?-lt xs i (omega arith)

node_of_head : (ring : List Entry) → node_of (get_elem? ring 0) ≡ first_node ring
node_of_head [] = refl
node_of_head (x ∷ xs) = refl

module _ (h : ℕ) (ring : List Entry) where
  successor_head : first_from h ring ≡ none → node_of (get_elem? ring 0) ≡ successor h ring
  unfolding successor
  successor_head e = ground (arith, node_of_head ring)

  successor_found :
      (x : Entry) {o : Option Entry}
      → o ≡ some x
      → first_from h ring ≡ some x.node
      → node_of o ≡ successor h ring
  unfolding successor
  successor_found x p e = ground arith

start_index-successor :
    (h : ℕ) (ring : List Entry)
    → IsSorted ring
    → node_of (get_elem? ring (start_index ring h)) ≡ successor h ring
unfolding successor start_index at_least
start_index-successor h ring s =
    let i : ℕ = search (length ring) (at_least h ring) in
    let f : IsFirst (at_least h ring) (length ring) i =
      search-IsFirst (at_least h ring) (length ring) (at_least-IsMonotone h ring s) in
    let e : node_of (get_elem? ring i) ≡ first_from h ring = at_first h ring i f in
    elim (Bool-cases (i == length ring)) [
      | inl past ↦
          let p : i ≡ length ring = ground arith in
          let none_first : first_from h ring ≡ none =
            sym e ∙ ap (λ (k : ℕ). node_of (get_elem? ring k)) p ∙ rw (get_elem?-length ring) in
          rw past (successor_head h ring none_first)
      | inr found ↦
          let (x, at) = get_elem?-lt ring i (ground (arith, f.within)) in
          let some_first : first_from h ring ≡ some x.node =
            sym e ∙ ap (λ (o : Option Entry). node_of o) at in
          rw found (successor_found h ring x at some_first)
    ]

successor_empty : (h : ℕ) (ring : List Entry) → (length ring == 0) ≡ true → successor h ring ≡ none
unfolding successor first_from
successor_empty h [] e = refl
successor_empty h (x ∷ xs) e = absurd (ground arith)

get_node_if :
    (key : Bytes) (r : HashRing)
    → node_of (get_elem? r.ring (start_index r.ring (crc32 key))) ≡ successor (crc32 key) r.ring
    → get_node key r ≡ (if length key == 0 then none else successor (crc32 key) r.ring)
unfolding get_node
get_node_if key r e = ground (arith, successor_empty (crc32 key) r.ring)

-- On a valid ring GetNode is the successor of the key's hash: the node of the first entry with a
-- key at or above the hash, or of the first entry of all where no key is so large. It finds nothing
-- exactly for an empty key or an empty ring.
pub get_node-successor :
    (key : Bytes) (r : HashRing)
    → IsValid r
    → get_node key r ≡ (if length key == 0 then none else successor (crc32 key) r.ring)
get_node-successor key r v = get_node_if key r (start_index-successor (crc32 key) r.ring v.sorted)

first_from-select :
    (h : ℕ) (m n : Bytes) (xs : List Entry)
    → bytes_eq m n ≡ false
    → first_from h xs ≡ some m
    → first_from h (select (λ x. not (bytes_eq x.node n)) xs) ≡ some m
unfolding first_from
first_from-select h m n [] d e = cc
first_from-select h m n (x ∷ xs) d e = ground (arith, first_from-select h m n xs d)

first_from-select-none :
    (h : ℕ) (p : Entry → Bool) (xs : List Entry)
    → first_from h xs ≡ none
    → first_from h (select p xs) ≡ none
unfolding first_from
first_from-select-none h p [] e = refl
first_from-select-none h p (x ∷ xs) e = ground (arith, first_from-select-none h p xs)

first_node-select :
    (m n : Bytes) (xs : List Entry)
    → bytes_eq m n ≡ false
    → first_node xs ≡ some m
    → first_node (select (λ x. not (bytes_eq x.node n)) xs) ≡ some m
first_node-select m n [] d e = cc
first_node-select m n (x ∷ xs) d e = ground arith

successor-select :
    (h : ℕ) (m n : Bytes) (xs : List Entry)
    → bytes_eq m n ≡ false
    → successor h xs ≡ some m
    → successor h (select (λ x. not (bytes_eq x.node n)) xs) ≡ some m
unfolding successor
successor-select h m n xs d e = ground (
  arith,
  first_from-select h m n xs d,
  first_from-select-none h (λ x. not (bytes_eq x.node n)) xs,
  first_node-select m n xs d,
)

successor-remove_node :
    (h : ℕ) (m node : Bytes) (r : HashRing)
    → bytes_eq m node ≡ false
    → successor h r.ring ≡ some m
    → successor h (remove_node node r).ring ≡ some m
unfolding remove_node
successor-remove_node h m node r d e = ground (arith, successor-select h m node r.ring d e)

-- Removing a node of a valid ring moves only the keys that it owned: a key of another node stays
-- with that node.
pub get_node-remove_node :
    (key m node : Bytes) (r : HashRing)
    → IsValid r
    → get_node key r ≡ some m
    → bytes_eq m node ≡ false
    → get_node key (remove_node node r) ≡ some m
get_node-remove_node key m node r v e d = ground (
  arith,
  get_node-successor key r v,
  get_node-successor key (remove_node node r) (remove_node-IsValid node r v),
  successor-remove_node (crc32 key) m node r d,
)
