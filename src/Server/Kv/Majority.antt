-- ===== src/Server/Kv/Majority.antt =====
-- The value that a read repair chooses.
use cluster_db.Prelude.{
  ℕ, ◌+◌, ◌*◌, ◌≤◌, ◌<◌, ◌≡◌, ◌⊎◌, inl, inr, refl, ap, arith, Bool, true, false,
}
use cluster_db.Prelude.{Option, none, some, List, [], ◌∷◌, length, ltb, Bool-cases, if◌then◌else◌}
use cluster_db.Prelude.Bytes.{Bytes, bytes_eq, bytes_eq_iff, bytes_eq_refl}
use cluster_db.Prelude.Table.{Table, lookup, insert, lookup-insert}
use cluster_db.Server.Kv.Read.{ReadResult, tally, most, majority_value}

-- How many of the results have a value.
unfoldable pub votes : Bytes → List ReadResult → ℕ
votes v [] = 0
votes v (r ∷ rs) = (if bytes_eq r.value v then 1 else 0) + votes v rs

-- No key twice.
IsMap : Table ℕ → Type 0
IsMap [] = Unit {0}
IsMap ((k, n) ∷ t) = (lookup k t ≡ none) × IsMap t

abbrev number : Option ℕ → ℕ
number none = 0
number (some n) = n

insert-IsMap : (k : Bytes) (n : ℕ) (t : Table ℕ) → IsMap t → IsMap (insert k n t)
unfolding insert lookup IsMap
insert-IsMap k n [] h = (refl, tt)
insert-IsMap k n ((j, w) ∷ t) h = pick (bytes_eq j k) refl (insert-IsMap k n t h.1)
  where
    pick :
        (b : Bool)
        → bytes_eq j k ≡ b
        → IsMap (insert k n t)
        → IsMap (if b then (j, n) ∷ t else (j, w) ∷ insert k n t)
    pick true e r = h
    pick false e r =
        (ground (arith, lookup-insert k j n t, h.0, e, bytes_eq_iff j k, bytes_eq_iff k j), r)

tally-IsMap : (rs : List ReadResult) (t : Table ℕ) → IsMap t → IsMap (tally rs t)
unfolding tally
tally-IsMap [] t h = h
tally-IsMap (r ∷ rs) t h = tally-IsMap rs _ (insert-IsMap r.value _ t h)

tally-votes :
    (v : Bytes) (rs : List ReadResult) (t : Table ℕ)
    → number (lookup v (tally rs t)) ≡ votes v rs + number (lookup v t)
unfolding tally votes
tally-votes v [] t = omega arith
tally-votes v (r ∷ rs) t = ground (
  arith,
  tally-votes v rs (insert r.value (elim (lookup r.value t) [ none ↦ 1 | some n ↦ n + 1 ]) t),
  lookup-insert r.value v (elim (lookup r.value t) [ none ↦ 1 | some n ↦ n + 1 ]) t,
  bytes_eq_iff r.value v,
)

-- The highest count of the table and `best`, and where it was found.
record Top (t : Table ℕ) (majority : Bytes) (best : ℕ) (result : Bytes) : Type 0 where
  top : ℕ
  above : best ≤ top
  bound : (u : Bytes) → number (lookup u t) ≤ top
  reached : ((top ≡ best) × (result ≡ majority)) ⊎ (lookup result t ≡ some top)

Top-counted :
    (k : Bytes) (n : ℕ) (t : Table ℕ) (majority result : Bytes) (best : ℕ)
    → lookup k t ≡ none
    → best < n
    → Top t k n result
    → Top ((k, n) ∷ t) majority best result
unfolding lookup
Top-counted k n t majority result best fresh l r = record {
  top = r.top;
  above = omega (arith, r.above);
  bound = λ u. ground (arith, r.bound u, r.above);
  reached = inr (elim r.reached [
    | inl e ↦ ground (arith, e, bytes_eq_refl k)
    | inr e ↦ ground (arith, e, fresh, bytes_eq_iff k result)
  ]);
}

Top-passed :
    (k : Bytes) (n : ℕ) (t : Table ℕ) (majority result : Bytes) (best : ℕ)
    → lookup k t ≡ none
    → n ≤ best
    → Top t majority best result
    → Top ((k, n) ∷ t) majority best result
unfolding lookup
Top-passed k n t majority result best fresh l r = record {
  top = r.top;
  above = r.above;
  bound = λ u. ground (arith, r.bound u, r.above);
  reached = elim r.reached [
    | inl e ↦ inl e
    | inr e ↦ inr (ground (arith, e, fresh, bytes_eq_iff k result))
  ];
}

most-Top :
    (t : Table ℕ) (majority : Bytes) (best : ℕ)
    → IsMap t
    → Top t majority best (most t majority best)
unfolding most lookup IsMap
most-Top [] majority best h = record {
  top = best;
  above = omega arith;
  bound = λ u. omega arith;
  reached = inl (refl, refl);
}
most-Top ((k, n) ∷ t) majority best h =
    pick (ltb best n) refl (most-Top t k n h.1) (most-Top t majority best h.1)
  where
    pick :
        (b : Bool)
        → ltb best n ≡ b
        → Top t k n (most t k n)
        → Top t majority best (most t majority best)
        → Top ((k, n) ∷ t) majority best (if b then most t k n else most t majority best)
    pick true e x y = Top-counted k n t majority _ best h.0 (ground (arith, e)) x
    pick false e x y = Top-passed k n t majority _ best h.0 (ground (arith, e)) y

counted : (v : Bytes) (rs : List ReadResult) → number (lookup v (tally rs [])) ≡ votes v rs
unfolding lookup
counted v rs = omega (arith, tally-votes v rs [])

votes-Top :
    (rs : List ReadResult) (result : Bytes)
    → Top (tally rs []) [] 0 result
    → (u : Bytes) → votes u rs ≤ votes result rs
votes-Top rs result r u =
    let mine = counted result rs in
    let other = counted u rs in
    elim r.reached [
      | inl e ↦ omega (arith, r.bound u, e.0, other)
      | inr e ↦
          let at : number (lookup result (tally rs [])) ≡ r.top = ap number e in
          omega (arith, r.bound u, mine, other, at)
    ]

votes-majority_value :
    (rs : List ReadResult) (u : Bytes) → votes u rs ≤ votes (majority_value rs) rs
unfolding majority_value
votes-majority_value rs =
    votes-Top rs _ (most-Top (tally rs []) [] 0 (tally-IsMap rs [] (unfold IsMap in tt)))

-- No result counts for two values.
votes_disjoint :
    (u v : Bytes) (rs : List ReadResult)
    → bytes_eq u v ≡ false
    → votes u rs + votes v rs ≤ length rs
unfolding votes
votes_disjoint u v [] d = omega arith
votes_disjoint u v (r ∷ rs) d = ground (
  arith,
  d,
  votes_disjoint u v rs d,
  bytes_eq_iff r.value u,
  bytes_eq_iff r.value v,
  bytes_eq_iff u v,
)

-- A value that more than half of the results have, a strict majority, is the one that majorityValue
-- returns, wherever it stands among them.
pub majority_value-votes :
    (rs : List ReadResult) (v : Bytes) → length rs < 2 * votes v rs → majority_value rs ≡ v
majority_value-votes rs v more = elim (Bool-cases (bytes_eq (majority_value rs) v)) [
  | inl same ↦ (bytes_eq_iff (majority_value rs) v).0 same
  | inr other ↦ absurd (omega (arith, more, votes-majority_value rs v, votes_disjoint _ v rs other))
]
