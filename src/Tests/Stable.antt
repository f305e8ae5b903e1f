-- ===== src/Tests/Stable.antt =====
-- A stable sort of the entries of a ring.
use cluster_db.Prelude.{ℕ, ◌+◌, ◌≤◌, ◌≡◌, refl, arith, Bool, true, false, List, [], ◌∷◌, All}
use cluster_db.Prelude.{leb, if◌then◌else◌}
use cluster_db.HashRing.Ring.{Entry, IsSorted, count, Sorter}

unfoldable pub place : Entry → List Entry → List Entry
place x [] = x ∷ []
place x (y ∷ ys) = if leb x.key y.key then x ∷ y ∷ ys else y ∷ place x ys

unfoldable pub arrange : List Entry → List Entry
arrange [] = []
arrange (x ∷ xs) = place x (arrange xs)

All-place :
    (n : ℕ) (x : Entry) (ys : List Entry)
    → n ≤ x.key
    → All (λ (y : Entry). n ≤ y.key) ys
    → All (λ (y : Entry). n ≤ y.key) (place x ys)
unfolding place
All-place n x [] h a = (h, tt)
All-place n x (y ∷ ys) h a = ground (arith, All-place n x ys h a.1)

All-weaken :
    (n m : ℕ) (ys : List Entry)
    → n ≤ m
    → All (λ (y : Entry). m ≤ y.key) ys
    → All (λ (y : Entry). n ≤ y.key) ys
All-weaken n m [] h a = tt
All-weaken n m (y ∷ ys) h a = (omega (arith, a.0), All-weaken n m ys h a.1)

place-IsSorted : (x : Entry) (ys : List Entry) → IsSorted ys → IsSorted (place x ys)
unfolding place
place-IsSorted x [] s = (tt, tt)
place-IsSorted x (y ∷ ys) s =
    place_if (leb x.key y.key) (place-IsSorted x ys s.1) (λ e. ground arith) (λ e. ground arith)
  where
    place_if :
        (b : Bool)
        → IsSorted (place x ys)
        → (b ≡ true → x.key ≤ y.key)
        → (b ≡ false → y.key ≤ x.key)
        → IsSorted (if b then x ∷ y ∷ ys else y ∷ place x ys)
    place_if true r p q = ((p refl, All-weaken x.key y.key ys (p refl) s.0), s)
    place_if false r p q = (All-place y.key x ys (q refl) s.0, r)

pub arrange-IsSorted : (xs : List Entry) → IsSorted (arrange xs)
unfolding arrange
arrange-IsSorted [] = tt
arrange-IsSorted (x ∷ xs) = place-IsSorted x (arrange xs) (arrange-IsSorted xs)

count-place :
    (p : Entry → Bool) (x : Entry) (ys : List Entry)
    → count p (place x ys) ≡ (if p x then 1 else 0) + count p ys
unfolding place count
count-place p x [] = refl
count-place p x (y ∷ ys) = ground (arith, count-place p x ys)

pub count-arrange : (p : Entry → Bool) (xs : List Entry) → count p (arrange xs) ≡ count p xs
unfolding arrange count
count-arrange p [] = refl
count-arrange p (x ∷ xs) = ground (arith, count-place p x (arrange xs), count-arrange p xs)

abbrev pub stable : Sorter
stable = record { sort = arrange; sort-IsSorted = arrange-IsSorted; count-sort = count-arrange }
