-- ===== src/Tests/Arranged.antt =====
-- A stable sort of a list, and documents of texts that it sorts by a field.
use cluster_db.Prelude.{
  ◌+◌, ◌≡◌, refl, ap, ◌∙◌, arith, Bool, true, false, List, [], ◌∷◌, All, select, if◌then◌else◌,
}
use cluster_db.Document.Service.Order.{tally, IsWeakOrder, IsInOrder, IsStableSort}

module _ {A : Type 0} (less : A → A → Bool) where
  unfoldable pub place : A → List A → List A
  place x [] = x ∷ []
  place x (y ∷ ys) = let rest = place x ys in if less y x then y ∷ rest else x ∷ y ∷ ys

  unfoldable pub arrange : List A → List A
  unfolding place
  arrange [] = []
  arrange (x ∷ xs) = place x (arrange xs)

  tally-place :
      (p : A → Bool) (x : A) (ys : List A)
      → tally p (place x ys) ≡ (if p x then 1 else 0) + tally p ys
  unfolding place
  tally-place p x [] = refl
  tally-place p x (y ∷ ys) = ground (arith, tally-place p x ys)

  tally-arrange : (p : A → Bool) (xs : List A) → tally p (arrange xs) ≡ tally p xs
  unfolding arrange
  tally-arrange p [] = refl
  tally-arrange p (x ∷ xs) = tally-place p x (arrange xs) ∙ ground (arith, tally-arrange p xs)

  All-place : (Q : A → Type 0) (x : A) (ys : List A) → Q x → All Q ys → All Q (place x ys)
  unfolding place
  All-place Q x [] q h = (q, tt)
  All-place Q x (y ∷ ys) q h = pick (less y x) (All-place Q x ys q h.1)
    where
      pick : (b : Bool) → All Q (place x ys) → All Q (if b then y ∷ place x ys else x ∷ y ∷ ys)
      pick true r = (h.0, r)
      pick false r = (q, h)

  All-arrange : (Q : A → Type 0) (xs : List A) → All Q xs → All Q (arrange xs)
  unfolding arrange
  All-arrange Q [] h = tt
  All-arrange Q (x ∷ xs) h = All-place Q x (arrange xs) h.0 (All-arrange Q xs h.1)

  module _ (P : A → Type 0) (w : IsWeakOrder less P) where
    behind :
        (x y : A) (zs : List A)
        → P x
        → P y
        → less y x ≡ false
        → All P zs
        → All (λ z. less z y ≡ false) zs
        → All (λ z. less z x ≡ false) zs
    behind x y [] px py e h a = tt
    behind x y (z ∷ zs) px py e h a =
        (w.negative z y x h.0 py px a.0 e, behind x y zs px py e h.1 a.1)

    place-IsInOrder :
        (x : A) (ys : List A)
        → P x
        → All P ys
        → IsInOrder (λ a b. less b a ≡ false) ys
        → IsInOrder (λ a b. less b a ≡ false) (place x ys)
    unfolding place
    place-IsInOrder x [] q h o = (tt, tt)
    place-IsInOrder x (y ∷ ys) q h o = pick (less y x) refl (place-IsInOrder x ys q h.1 o.1)
      where
        pick :
            (b : Bool)
            → less y x ≡ b
            → IsInOrder (λ a b. less b a ≡ false) (place x ys)
            → IsInOrder (λ a b. less b a ≡ false) (if b then y ∷ place x ys else x ∷ y ∷ ys)
        pick true e r = (All-place (λ z. less z y ≡ false) x ys (w.asymmetric y x h.0 q e) o.0, r)
        pick false e r = ((e, behind x y ys q h.0 e h.1 o.0), o)

    arrange-IsInOrder : (xs : List A) → All P xs → IsInOrder (λ a b. less b a ≡ false) (arrange xs)
    unfolding arrange
    arrange-IsInOrder [] h = tt
    arrange-IsInOrder (x ∷ xs) h =
        place-IsInOrder x (arrange xs) h.0 (All-arrange P xs h.1) (arrange-IsInOrder xs h.1)

    module _ (p : A → Bool)
        (tied : (x y : A) → P x → P y → p x ≡ true → p y ≡ true → less x y ≡ false) where
      select-place :
          (x : A) (ys : List A)
          → P x
          → All P ys
          → select p (place x ys) ≡ (if p x then x ∷ select p ys else select p ys)
      unfolding place
      select-place x [] q h = refl
      select-place x (y ∷ ys) q h = ground (arith, tied y x h.0 q, select-place x ys q h.1)

      select-arrange : (xs : List A) → All P xs → select p (arrange xs) ≡ select p xs
      unfolding arrange
      select-arrange [] h = refl
      select-arrange (x ∷ xs) h =
          select-place x (arrange xs) h.0 (All-arrange P xs h.1)
          ∙ ap (λ (t : List A). if p x then x ∷ t else t) (select-arrange xs h.1)

    pub arrange-IsStableSort : (xs : List A) → All P xs → IsStableSort less P xs (arrange xs)
    arrange-IsStableSort xs h = record {
      same = λ p. tally-arrange p xs;
      ordered = arrange-IsInOrder xs h;
      stable = λ p tied. select-arrange p tied xs h;
      keeps = All-arrange P xs h;
    }
