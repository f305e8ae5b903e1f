-- ===== src/HashRing/Invariant.antt =====
-- The ring stays sorted and holds, for each known node, as many entries as replicas.
use cluster_db.Prelude.{ℕ, zero, suc, ◌+◌, ◌≤◌, ◌≡◌, refl, arith, Bool, true, false, not}
use cluster_db.Prelude.{List, [], ◌∷◌, ◌++◌, length, select, All}
use cluster_db.Prelude.{◌==◌, if◌then◌else◌}
use cluster_db.Prelude.Bytes.{Bytes, bytes_eq, bytes_eq_iff}
use cluster_db.HashRing.Ring.{
  Entry, HashRing, contains, IsSorted, count, Sorter, new_ring, virtual_entries, add_node,
  remove_node,
}

abbrev pub is_of : Bytes → Entry → Bool
is_of n x = bytes_eq x.node n

-- The share of each node: all its replicas if it is known, and nothing if it is not.
pub record IsValid (r : HashRing) : Type 0 where
  pub sorted : IsSorted r.ring
  pub shares : (n : Bytes) → count (is_of n) r.ring ≡ (if contains n r.nodes then r.replicas else 0)

count-append :
    (p : Entry → Bool) (xs ys : List Entry) → count p (xs ++ ys) ≡ count p xs + count p ys
unfolding count
count-append p [] ys = omega arith
count-append p (x ∷ xs) ys = omega (arith, count-append p xs ys)

count-virtual_entries :
    (m n : Bytes) (i k : ℕ)
    → count (is_of n) (virtual_entries m i k) ≡ (if bytes_eq m n then k else 0)
unfolding count virtual_entries
count-virtual_entries m n i zero = ground arith
count-virtual_entries m n i (suc k) = ground (arith, count-virtual_entries m n (i + 1) k)

All-select :
    (P : Entry → Type 0) (p : Entry → Bool) (xs : List Entry) → All P xs → All P (select p xs)
All-select P p [] h = h
All-select P p (x ∷ xs) h = ground (arith, All-select P p xs h.1)

pub select-IsSorted : (p : Entry → Bool) (xs : List Entry) → IsSorted xs → IsSorted (select p xs)
select-IsSorted p [] h = h
select-IsSorted p (x ∷ xs) h = sorted_if (p x) (All-select _ p xs h.0) (select-IsSorted p xs h.1)
  where
    sorted_if :
        (b : Bool)
        → All (λ (y : Entry). x.key ≤ y.key) (select p xs)
        → IsSorted (select p xs)
        → IsSorted (if b then x ∷ select p xs else select p xs)
    sorted_if true a s = (a, s)
    sorted_if false a s = s

count-select_other :
    (m n : Bytes) (xs : List Entry)
    → count (is_of n) (select (λ x. not (bytes_eq x.node m)) xs)
      ≡ (if bytes_eq m n then 0 else count (is_of n) xs)
unfolding count
count-select_other m n [] = ground arith
count-select_other m n (x ∷ xs) = ground (
  arith,
  count-select_other m n xs,
  bytes_eq_iff x.node m,
  bytes_eq_iff x.node n,
  bytes_eq_iff m n,
)

contains-select :
    (m n : Bytes) (xs : List Bytes)
    → contains n (select (λ x. not (bytes_eq x m)) xs)
      ≡ (if bytes_eq m n then false else contains n xs)
unfolding contains
contains-select m n [] = ground arith
contains-select m n (x ∷ xs) =
    ground (arith, contains-select m n xs, bytes_eq_iff x m, bytes_eq_iff x n, bytes_eq_iff m n)

new_ring-IsValid : (replicas : ℕ) → IsValid (new_ring replicas)
unfolding new_ring contains count
new_ring-IsValid replicas = record { sorted = tt; shares = λ n. refl }

add_shares :
    (s : Sorter) (node n : Bytes) (r : HashRing)
    → IsValid r
    → contains node r.nodes ≡ false
    → count (is_of n) (s.sort (r.ring ++ virtual_entries node 0 r.replicas))
      ≡ (if contains n (node ∷ r.nodes) then r.replicas else 0)
unfolding contains
add_shares s node n r v fresh = ground (
  arith,
  s.count-sort (is_of n) (r.ring ++ virtual_entries node 0 r.replicas),
  count-append (is_of n) r.ring (virtual_entries node 0 r.replicas),
  count-virtual_entries node n 0 r.replicas,
  v.shares n,
  bytes_eq_iff node n,
)

IsValid-if :
    (b : Bool) (x y : HashRing)
    → (b ≡ true → IsValid x)
    → (b ≡ false → IsValid y)
    → IsValid (if b then x else y)
IsValid-if true x y hx hy = hx refl
IsValid-if false x y hx hy = hy refl

pub add_node-IsValid :
    (s : Sorter) (node : Bytes) (r : HashRing) → IsValid r → IsValid (add_node s node r)
unfolding add_node
add_node-IsValid s node r v =
    IsValid-if (length node == 0) _ _ (λ _. v)
      λ _.
        IsValid-if (contains node r.nodes) _ _ (λ _. v)
          λ fresh. record {
            sorted = s.sort-IsSorted (r.ring ++ virtual_entries node 0 r.replicas);
            shares = λ n. add_shares s node n r v fresh;
          }

remove_shares :
    (node n : Bytes) (r : HashRing)
    → IsValid r
    → count (is_of n) (select (λ x. not (bytes_eq x.node node)) r.ring)
      ≡ (if contains n (select (λ x. not (bytes_eq x node)) r.nodes) then r.replicas else 0)
remove_shares node n r v =
    ground (arith, count-select_other node n r.ring, contains-select node n r.nodes, v.shares n)

pub remove_node-IsValid : (node : Bytes) (r : HashRing) → IsValid r → IsValid (remove_node node r)
unfolding remove_node
remove_node-IsValid node r v =
    IsValid-if (length node == 0) _ _ (λ _. v)
      λ _.
        IsValid-if (not (contains node r.nodes)) _ _ (λ _. v)
          λ _. record {
            sorted = select-IsSorted _ r.ring v.sorted;
            shares = λ n. remove_shares node n r v;
          }

-- A call of the ring that changes it.
pub data Change : Type 0 where
  added removed : Bytes → Change

abbrev pub apply : Sorter → Change → HashRing → HashRing
apply s (added n) r = add_node s n r
apply s (removed n) r = remove_node n r

abbrev pub apply_all : Sorter → List Change → HashRing → HashRing
apply_all s [] r = r
apply_all s (c ∷ cs) r = apply_all s cs (apply s c r)

apply_all-IsValid :
    (s : Sorter) (cs : List Change) (r : HashRing) → IsValid r → IsValid (apply_all s cs r)
apply_all-IsValid s [] r v = v
apply_all-IsValid s (added n ∷ cs) r v = apply_all-IsValid s cs _ (add_node-IsValid s n r v)
apply_all-IsValid s (removed n ∷ cs) r v = apply_all-IsValid s cs _ (remove_node-IsValid n r v)

-- Any sequence of AddNode and RemoveNode on a new ring leaves the entries sorted by their keys, and
-- each node with exactly as many entries as the ring has replicas if it is known, and none if not.
pub history-IsValid :
    (s : Sorter) (replicas : ℕ) (cs : List Change) → IsValid (apply_all s cs (new_ring replicas))
history-IsValid s replicas cs = apply_all-IsValid s cs _ (new_ring-IsValid replicas)
