-- ===== src/Memory/Scan/Loop.antt =====
-- The loop of a caller over the iterator of a scan ends.
use cluster_db.Prelude.{
  ℕ, zero, suc, ◌+◌, ◌<◌, ◌≡◌, refl, sym, ap, ◌∙◌, arith, Bool, true, false, Option, none, some,
  Option-cases, inl, inr,
}
use cluster_db.Prelude.{List, [], ◌∷◌, length, drop, get_elem?, ok, ◌>>=◌}
use cluster_db.Storage.Types.{Record, ScanOptions}
use cluster_db.Os.Disk.{Os}
use cluster_db.Memory.Engine.{Engine, check_open}
use cluster_db.Memory.Scan.{Iterator, new_iterator, next, iterate, collect_records}
use cluster_db.Memory.Ops.{scan}

module _ {A : Type 0} where
  drop_end : (xs : List A) (p : ℕ) → get_elem? xs p ≡ none → drop p xs ≡ []
  drop_end [] zero e = refl
  drop_end [] (suc p) e = refl
  drop_end (x ∷ xs) zero e = absurd (cc e)
  drop_end (x ∷ xs) (suc p) e = drop_end xs p e

  drop_next :
      (xs : List A) (p : ℕ) (x : A) → get_elem? xs p ≡ some x → drop p xs ≡ x ∷ drop (suc p) xs
  drop_next [] p x e = absurd (cc e)
  drop_next (y ∷ ys) zero x e = let same : y ≡ x = cc e in ap (λ (z : A). z ∷ ys) same
  drop_next (y ∷ ys) (suc p) x e = drop_next ys p x e

  none_after : (xs : List A) (p : ℕ) → get_elem? xs p ≡ none → get_elem? xs (suc p) ≡ none
  none_after [] zero e = refl
  none_after [] (suc p) e = refl
  none_after (x ∷ xs) zero e = absurd (cc e)
  none_after (x ∷ xs) (suc p) e = none_after xs p e

one_more : (p : ℕ) → p + 1 ≡ suc p
one_more p = omega arith

-- An open iterator behind `p` calls of Next.
abbrev at_position : List Record → ℕ → Option Record → Iterator
at_position rs p current = record {
  records = rs;
  pos = p;
  current = current;
  error = none;
  closed = false;
}

next_end :
    (rs : List Record) (p : ℕ) (c : Option Record)
    → get_elem? rs p ≡ none
    → next (at_position rs p c) ≡ (false, at_position rs (p + 1) c)
unfolding next
next_end rs p c e = rw e refl

next_found :
    (rs : List Record) (p : ℕ) (c : Option Record) (r : Record)
    → get_elem? rs p ≡ some r
    → next (at_position rs p c) ≡ (true, at_position rs (p + 1) (some r))
unfolding next
next_found rs p c r e = rw e refl

-- What the loop leaves: the records, and an iterator whose Next gives nothing.
Ends : List Record → List Record × Iterator → Type 0
Ends rs r = (r.0 ≡ rs) × ((next r.1).0 ≡ false)

iterate_end :
    (fuel : ℕ) (rs : List Record) (p : ℕ) (c : Option Record)
    → get_elem? rs p ≡ none
    → iterate (suc fuel) (at_position rs p c) ≡ ([], at_position rs (p + 1) c)
unfolding iterate
iterate_end fuel rs p c e = ground (arith, next_end rs p c e)

iterate_more :
    (fuel : ℕ) (rs : List Record) (p : ℕ) (c : Option Record) (r : Record)
    → get_elem? rs p ≡ some r
    → iterate (suc fuel) (at_position rs p c) ≡ (
      r ∷ (iterate fuel (at_position rs (p + 1) (some r))).0,
      (iterate fuel (at_position rs (p + 1) (some r))).1,
    )
unfolding iterate
iterate_more fuel rs p c r e = ground (arith, next_found rs p c r e)

iterate_stops :
    (fuel : ℕ) (rs : List Record) (p : ℕ) (c : Option Record)
    → length (drop p rs) < fuel
    → Ends (drop p rs) (iterate fuel (at_position rs p c))
unfolding Ends
iterate_stops zero rs p c l = absurd (omega (arith, l))
iterate_stops (suc fuel) rs p c l = elim (Option-cases (get_elem? rs p)) [
  | inl e ↦ rw (iterate_end fuel rs p c e) (
    sym (drop_end rs p e),
    ap (λ (x : Bool × Iterator). x.0)
        (next_end rs (p + 1) c (ap (get_elem? rs) (one_more p) ∙ none_after rs p e)),
  )
  | inr (r, e) ↦
      let d : drop p rs ≡ r ∷ drop (p + 1) rs =
        drop_next rs p r e ∙ ap (λ (n : ℕ). r ∷ drop n rs) (sym (one_more p)) in
      let shorter : length (drop (p + 1) rs) < fuel =
        omega (arith, l, ap (λ (xs : List Record). length xs) d) in
      let (recs, stop) = iterate_stops fuel rs (p + 1) (some r) shorter in
      rw (iterate_more fuel rs p c r e) (ap (λ xs. r ∷ xs) recs ∙ sym d, stop)
]

scanned :
    (os : Os) (opts : ScanOptions) (e : Engine) (it : Iterator)
    → (scan os opts e).0 ≡ ok it
    → it ≡ at_position (collect_records opts e.store) 0 none
unfolding scan check_open ◌>>=◌ new_iterator
scanned os opts e it h = ground (arith, h)

-- The loop `for it.Next() { ... }` over the iterator of a Scan ends: with fuel for one round more
-- than there are records, it yields the records that the scan collected, in their order, and stops
-- at a call of Next that is false.
pub iterate-scan :
    (os : Os) (opts : ScanOptions) (e : Engine) (it : Iterator) (fuel : ℕ)
    → (scan os opts e).0 ≡ ok it
    → length (collect_records opts e.store) < fuel
    → ((iterate fuel it).0 ≡ collect_records opts e.store) × ((next (iterate fuel it).1).0 ≡ false)
unfolding Ends
iterate-scan os opts e it fuel h l =
    rw (scanned os opts e it h) (iterate_stops fuel (collect_records opts e.store) 0 none l)
