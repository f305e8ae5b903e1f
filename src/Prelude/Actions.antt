-- ===== src/Prelude/Actions.antt =====
-- A fallible result, generic in the error, and actions over a state that outlives an error.
use mathlib.Core.Path.{◌≡◌, refl}
use mathlib.Core.Logic.{◌⊎◌, inl, inr}
use mathlib.Core.Bool.{Bool, true, false}
use cluster_db.Prelude.Tests.{if◌then◌else◌}

pub data Result {ℓ κ} (E : Type ℓ) (A : Type κ) : Type (ℓ ⊔ κ) where
  ok : A → Result E A
  err : E → Result E A

pub Result-cases {ℓ κ} :
    {E : Type ℓ} {A : Type κ} (r : Result E A) → ((a : A) × (r ≡ ok a)) ⊎ ((e : E) × (r ≡ err e))
Result-cases (ok a) = inl (a, refl)
Result-cases (err e) = inr (e, refl)

-- What was written before an error stays written, so the state comes back beside the error too.
abbrev pub Action : Type 0 → Type 0 → Type 0 → Type 0
Action E S A = S → Result E A × S

module _ {E S : Type 0} where
  unfoldable pub pure : {A : Type 0} → A → Action E S A
  pure a s = (ok a, s)

  unfoldable pub fail : {A : Type 0} → E → Action E S A
  fail e s = (err e, s)

  unfoldable pub gets : {A : Type 0} → (S → A) → Action E S A
  gets f s = (ok (f s), s)

  unfoldable pub modify : (S → S) → Action E S (Unit {0})
  modify f s = (ok tt, f s)

  -- The result of an action as a value: the caller goes on after an error.
  unfoldable pub attempt : {A : Type 0} → Action E S A → Action E S (Result E A)
  attempt m s = (ok (m s).0, (m s).1)

  abbrev pub proceed : {A B : Type 0} → Result E A → (A → Action E S B) → Action E S B
  proceed (ok a) f s = f a s
  proceed (err e) f s = (err e, s)

  infixl 5 ◌>>=◌ ◌>>◌
  -- Opening this opens the other actions too.
  unfoldable pub ◌>>=◌ : {A B : Type 0} → Action E S A → (A → Action E S B) → Action E S B
  unfolding pure fail gets modify attempt
  ◌>>=◌ m f s = proceed (m s).0 f (m s).1

  abbrev pub ◌>>◌ : {B : Type 0} → Action E S (Unit {0}) → Action E S B → Action E S B
  m >> k = m >>= λ _. k

  -- `if c { m }`
  abbrev pub when : Bool → Action E S (Unit {0}) → Action E S (Unit {0})
  when c m = if c then m else pure tt

-- `m` keeps `P`, whether it returns or fails.
pub record Keeps {E S A : Type 0} (P : S → Type 0) (m : Action E S A) : Type 0 where
  pub at : (s : S) → P s → P (m s).1

module _ {E S A : Type 0} {P : S → Type 0} where
  pub Keeps-pure : (a : A) → Keeps P (pure {E = E} {S = S} a)
  unfolding pure
  Keeps-pure a = record { at = λ s h. h }

  pub Keeps-fail : (e : E) → Keeps P (fail {E = E} {S = S} {A = A} e)
  unfolding fail
  Keeps-fail e = record { at = λ s h. h }

  pub Keeps-gets : (f : S → A) → Keeps P (gets {E = E} f)
  unfolding gets
  Keeps-gets f = record { at = λ s h. h }

  pub Keeps-attempt : (m : Action E S A) → Keeps P m → Keeps P (attempt m)
  unfolding attempt
  Keeps-attempt m k = record { at = λ s h. k.at s h }

  pub Keeps-if :
      (b : Bool) (m n : Action E S A) → Keeps P m → Keeps P n → Keeps P (if b then m else n)
  Keeps-if true m n km kn = km
  Keeps-if false m n km kn = kn

  pub Keeps-proceed :
      {B : Type 0} (r : Result E A) (f : A → Action E S B) (s : S)
      → ((a : A) → Keeps P (f a))
      → P s
      → P (proceed r f s).1
  Keeps-proceed (ok a) f s k h = (k a).at s h
  Keeps-proceed (err e) f s k h = h

  pub Keeps-bind :
      {B : Type 0} (m : Action E S A) (f : A → Action E S B)
      → Keeps P m
      → ((a : A) → Keeps P (f a))
      → Keeps P (m >>= f)
  unfolding ◌>>=◌
  Keeps-bind m f km kf = record { at = λ s h. Keeps-proceed (m s).0 f (m s).1 kf (km.at s h) }

pub ruleset keeps_rules = (Keeps-pure, Keeps-fail, Keeps-gets, Keeps-attempt, Keeps-if, Keeps-bind)
