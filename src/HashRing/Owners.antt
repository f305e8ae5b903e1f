-- ===== src/HashRing/Owners.antt =====
-- ReplicaOwners walks the ring once from the key's successor and keeps the first distinct nodes.
use cluster_db.Prelude.{ℕ, zero, suc, ◌+◌, ◌%◌, ◌≤◌, ◌<◌, ◌≡◌, refl, arith, true, false, ◌||◌}
use cluster_db.Prelude.{List, [], ◌∷◌, ◌++◌, length, get_elem?, some, length-append}
use cluster_db.Prelude.{◌==◌, Bool-cases, inl, inr}
use cluster_db.Prelude.Bytes.{Bytes, bytes_eq_iff}
use cluster_db.Wal.Crc.{crc32}
use cluster_db.HashRing.Ring.{
  Entry, HashRing, contains, start_index, node_or_empty, owners_loop, replica_owners,
}

abbrev pub IsDistinct : List Bytes → Type 0
IsDistinct [] = Unit
IsDistinct (x ∷ xs) = (contains x xs ≡ false) × IsDistinct xs

contains-append :
    (a : Bytes) (xs ys : List Bytes) → contains a (xs ++ ys) ≡ (contains a xs || contains a ys)
unfolding contains
contains-append a [] ys = refl
contains-append a (x ∷ xs) ys = ground (arith, contains-append a xs ys)

IsDistinct-snoc :
    (xs : List Bytes) (a : Bytes)
    → IsDistinct xs
    → contains a xs ≡ false
    → IsDistinct (xs ++ a ∷ [])
unfolding contains
IsDistinct-snoc [] a d c = (refl, tt)
IsDistinct-snoc (x ∷ xs) a d c = (
  ground (arith, contains-append x xs (a ∷ []), bytes_eq_iff x a, bytes_eq_iff a x),
  IsDistinct-snoc xs a d.1 (ground arith),
)

-- The nodes that the walk meets, from step `i` on.
abbrev pub walk : List Entry → ℕ → ℕ → ℕ → List Bytes
walk ring start i zero = []
walk ring start i (suc n) =
    node_or_empty (get_elem? ring ((start + i) % length ring)) ∷ walk ring start (i + 1) n

-- What the loop promises of the owners that it returns, over the owners that it had.
pub record IsChoice (nodes owners result : List Bytes) (factor : ℕ) : Type 0 where
  pub distinct : IsDistinct result
  pub bounded : length result ≤ factor
  pub sound :
      (a : Bytes) → contains a result ≡ true → (contains a owners || contains a nodes) ≡ true
  pub complete :
      (a : Bytes)
      → length result < factor
      → (contains a owners || contains a nodes) ≡ true
      → contains a result ≡ true

module _ (node : Bytes) (nodes owners : List Bytes) (factor : ℕ) where
  IsChoice-skipped :
      (result : List Bytes)
      → contains node owners ≡ true
      → IsChoice nodes owners result factor
      → IsChoice (node ∷ nodes) owners result factor
  unfolding contains
  IsChoice-skipped result c h = record {
    distinct = h.distinct;
    bounded = h.bounded;
    sound = λ a e. ground (arith, h.sound a e);
    complete = λ a b e. h.complete a b (ground (arith, bytes_eq_iff node a));
  }

  IsChoice-full :
      contains node owners ≡ false
      → IsDistinct owners
      → length (owners ++ node ∷ []) ≡ factor
      → IsChoice (node ∷ nodes) owners (owners ++ node ∷ []) factor
  unfolding contains
  IsChoice-full c d l = record {
    distinct = IsDistinct-snoc owners node d c;
    bounded = omega arith;
    sound = λ a e. ground (arith, contains-append a owners (node ∷ []));
    complete = λ a b e. absurd (omega arith);
  }

  IsChoice-added :
      (result : List Bytes)
      → IsChoice nodes (owners ++ node ∷ []) result factor
      → IsChoice (node ∷ nodes) owners result factor
  unfolding contains
  IsChoice-added result h = record {
    distinct = h.distinct;
    bounded = h.bounded;
    sound = λ a e. ground (arith, h.sound a e, contains-append a owners (node ∷ []));
    complete = λ a b e. h.complete a b (ground (arith, contains-append a owners (node ∷ [])));
  }

loop-IsChoice :
    (n : ℕ) (ring : List Entry) (start i factor : ℕ) (owners : List Bytes)
    → IsDistinct owners
    → length owners < factor
    → IsChoice (walk ring start i n) owners (owners_loop n ring start i factor owners) factor
unfolding owners_loop contains
loop-IsChoice zero ring start i factor owners d l = record {
  distinct = d;
  bounded = omega arith;
  sound = λ a h. ground arith;
  complete = λ a b h. ground arith;
}
loop-IsChoice (suc n) ring start i factor owners d l =
    let node : Bytes = node_or_empty (get_elem? ring ((start + i) % length ring)) in
    let more : List Bytes = owners ++ node ∷ [] in
    let size : length more ≡ length owners + 1 = length-append owners (node ∷ []) in
    elim (Bool-cases (contains node owners)) [
      | inl c ↦ rw c (
          IsChoice-skipped node _ owners factor _ c
            (loop-IsChoice n ring start (i + 1) factor owners d l))
      | inr c ↦ elim (Bool-cases (length more == factor)) [
        | inl f ↦ rw (c, f) (IsChoice-full node _ owners factor c d (ground arith))
        | inr f ↦
            rw (c, f)
              (IsChoice-added node _ owners factor _ (
                loop-IsChoice n ring start (i + 1) factor more (IsDistinct-snoc owners node d c)
                  (ground arith)))
      ]
    ]

factor_pos :
    (key : Bytes) (factor : ℕ) (r : HashRing) (owners : List Bytes)
    → replica_owners key factor r ≡ some owners
    → 0 < factor
unfolding replica_owners
factor_pos key factor r owners e = ground arith

-- The owners of a key on a ring that has entries: different nodes, at most `factor` of them, all met
-- on one walk round the ring from the key's successor; and every node of the ring if there are fewer
-- than `factor`.
pub replica_owners-IsChoice :
    (key : Bytes) (factor : ℕ) (r : HashRing) (owners : List Bytes)
    → replica_owners key factor r ≡ some owners
    → IsChoice (walk r.ring (start_index r.ring (crc32 key)) 0 (length r.ring)) [] owners factor
unfolding replica_owners
replica_owners-IsChoice key factor r owners e =
    let start : ℕ = start_index r.ring (crc32 key) in
    let result : List Bytes = owners_loop (length r.ring) r.ring start 0 factor [] in
    let eq : result ≡ owners = ground arith in
    rw eq at
      (loop-IsChoice (length r.ring) r.ring start 0 factor [] tt (factor_pos key factor r owners e))
