-- ===== src/HashRing/Search.antt =====
-- Go's sort.Search, the binary search that the ring uses, and what it finds.
use cluster_db.Prelude.{ℕ, zero, suc, ◌+◌, ◌/◌, ◌≤◌, ◌<◌, ◌≡◌, arith, Bool, true, false}
use cluster_db.Prelude.{ltb, if◌then◌else◌, Bool-cases, inl, inr}

-- `for i < j { h := (i + j) / 2; ... }`. Each round shrinks j - i, so j - i rounds are enough.
unfoldable pub search_loop : ℕ → (ℕ → Bool) → ℕ → ℕ → ℕ
search_loop zero p i j = i
search_loop (suc fuel) p i j =
    let h = (i + j) / 2 in
    let left = search_loop fuel p i h in
    let right = search_loop fuel p (h + 1) j in if ltb i j then (if p h then left else right) else i

-- sort.Search(n, p)
unfoldable pub search : ℕ → (ℕ → Bool) → ℕ
unfolding search_loop
search n p = search_loop n p 0 n

-- A test that stays true once it is true.
abbrev pub IsMonotone : (ℕ → Bool) → ℕ → Type 0
IsMonotone p n = (i j : ℕ) → i ≤ j → j < n → p i ≡ true → p j ≡ true

-- `r` is the first index below `n` at which the test holds, or `n`.
pub record IsFirst (p : ℕ → Bool) (n r : ℕ) : Type 0 where
  pub within : r ≤ n
  pub below : (k : ℕ) → k < r → p k ≡ false
  pub holds : r < n → p r ≡ true

module _ (p : ℕ → Bool) (n : ℕ) (mono : IsMonotone p n) where
  below_false : (h k : ℕ) → h < n → p h ≡ false → k < h + 1 → p k ≡ false
  below_false h k hn e lt = elim (Bool-cases (p k)) [
    | inl t ↦ absurd (ground (arith, mono k h (omega arith) hn t))
    | inr f ↦ f
  ]

  search_loop-IsFirst :
      (fuel i j : ℕ)
      → j ≤ i + fuel
      → i ≤ j
      → j ≤ n
      → ((k : ℕ) → k < i → p k ≡ false)
      → (j < n → p j ≡ true)
      → IsFirst p n (search_loop fuel p i j)
  unfolding search_loop
  search_loop-IsFirst zero i j f ij jn lo hi =
      let e : i ≡ j = omega arith in
      record { within = omega arith; below = lo; holds = λ h. ground (arith, hi (omega arith)) }
  search_loop-IsFirst (suc fuel) i j f ij jn lo hi = elim (Bool-cases (ltb i j)) [
    | inr done ↦
        let e : i ≡ j = ground arith in
        rw done (record {
          within = omega arith;
          below = lo;
          holds = λ h. ground (arith, hi (omega arith));
        })
    | inl more ↦ elim (Bool-cases (p ((i + j) / 2))) [
      | inl t ↦
          rw (more, t)
            (search_loop-IsFirst fuel i ((i + j) / 2) (ground arith) (ground arith) (ground arith)
              lo (λ _. t))
      | inr t ↦
          rw (more, t)
            (search_loop-IsFirst fuel ((i + j) / 2 + 1) j (ground arith) (ground arith) jn
              (λ k h. below_false ((i + j) / 2) k (ground arith) t h) hi)
    ]
  ]

-- sort.Search finds the first index at which a monotone test holds.
pub search-IsFirst : (p : ℕ → Bool) (n : ℕ) → IsMonotone p n → IsFirst p n (search n p)
unfolding search
search-IsFirst p n mono =
    search_loop-IsFirst p n mono n 0 n (omega arith) (omega arith) (omega arith)
      (λ k h. absurd (omega arith)) (λ h. absurd (omega arith))

search_loop-le : (p : ℕ → Bool) (fuel i j n : ℕ) → i ≤ n → j ≤ n → search_loop fuel p i j ≤ n
unfolding search_loop
search_loop-le p zero i j n h k = h
search_loop-le p (suc fuel) i j n h k =
    ground
      (arith, search_loop-le p fuel i ((i + j) / 2) n, search_loop-le p fuel ((i + j) / 2 + 1) j n)

pub search-le : (n : ℕ) (p : ℕ → Bool) → search n p ≤ n
unfolding search
search-le n p = search_loop-le p n 0 n n (omega arith) (omega arith)
