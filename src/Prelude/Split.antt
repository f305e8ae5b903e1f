-- ===== src/Prelude/Split.antt =====
-- strings.Split and strings.Join at one byte, and strings.Trim of one byte.
use Prim.Native.Nat.{ℕ}
use mathlib.Core.Path.{◌≡◌, refl, ap}
use mathlib.Core.Bool.{Bool, true, false}
use mathlib.Core.List.{List, [], ◌∷◌, ◌++◌}
use native.Mathlib.Omega.{arith}
use cluster_db.Prelude.Tests.{◌==◌, if◌then◌else◌}
use cluster_db.Prelude.Bytes.{Bytes}

-- The first byte goes to the first part.
abbrev onto : ℕ → List Bytes → List Bytes
onto c [] = (c ∷ []) ∷ []
onto c (p ∷ ps) = (c ∷ p) ∷ ps

unfoldable pub split : ℕ → Bytes → List Bytes
split sep [] = [] ∷ []
split sep (c ∷ s) = let rest = split sep s in if c == sep then [] ∷ rest else onto c rest

unfoldable pub join : ℕ → List Bytes → Bytes
join sep [] = []
join sep (p ∷ []) = p
join sep (p ∷ q ∷ ps) = p ++ sep ∷ join sep (q ∷ ps)

unfoldable pub trim_left : ℕ → Bytes → Bytes
trim_left sep [] = []
trim_left sep (c ∷ s) = if c == sep then trim_left sep s else c ∷ s

-- Without the trailing bytes that are `sep`.
unfoldable pub trim_right : ℕ → Bytes → Bytes
trim_right sep [] = []
trim_right sep (c ∷ s) = elim (trim_right sep s) [
  | [] ↦ if c == sep then [] else c ∷ []
  | d ∷ t ↦ c ∷ d ∷ t
]

unfoldable pub trim : ℕ → Bytes → Bytes
trim sep s = trim_right sep (trim_left sep s)

pub split_cons : (sep : ℕ) (s : Bytes) → (p : Bytes) × (ps : List Bytes) × (split sep s ≡ p ∷ ps)
unfolding split
split_cons sep [] = ([], [], refl)
split_cons sep (c ∷ s) = let (p, ps, e) = split_cons sep s in after (c == sep) (split sep s) p ps e
  where
    after :
        (b : Bool) (rest : List Bytes) (p : Bytes) (ps : List Bytes)
        → rest ≡ p ∷ ps
        → (q : Bytes) × (qs : List Bytes) × ((if b then [] ∷ rest else onto c rest) ≡ q ∷ qs)
    after true rest p ps e = ([], rest, refl)
    after false rest p ps e = (c ∷ p, ps, ap (onto c) e)

join-onto :
    (sep c p : ℕ) (x : Bytes) (xs : List Bytes) → join sep (onto c (x ∷ xs)) ≡ c ∷ join sep (x ∷ xs)
unfolding join
join-onto sep c p x [] = refl
join-onto sep c p x (y ∷ ys) = refl

-- What was split joins to itself.
pub join-split : (sep : ℕ) (s : Bytes) → join sep (split sep s) ≡ s
unfolding split join
join-split sep [] = refl
join-split sep (c ∷ s) =
    let (p, ps, e) = split_cons sep s in ground (arith, e, join-split sep s, join-onto sep c 0 p ps)
