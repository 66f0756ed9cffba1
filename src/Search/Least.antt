-- ===== src/Search/Least.antt =====
-- sort.Search finds the least index at which a monotone test holds.
use make_your_own_redis_go.Shared.{
  ℕ, zero, suc, ◌+◌, ◌/◌, ◌≤◌, ◌<◌, ◌≡◌, Bool, true, false, arith, ltb, inl, inr, Bool-cases,
}
use make_your_own_redis_go.Search.{bisect, search_index}

-- Below `n`, once the test holds it goes on holding.
abbrev pub Monotone : ℕ → (ℕ → Bool) → Type 0
Monotone n f = (i j : ℕ) → i ≤ j → j < n → f i ≡ true → f j ≡ true

-- `k` is the first index below `n` at which `f` holds, or `n`.
pub record IsLeast (n : ℕ) (f : ℕ → Bool) (k : ℕ) : Type 0 where
  pub within : k ≤ n
  pub before : (i : ℕ) → i < k → f i ≡ false
  pub behind : (i : ℕ) → k ≤ i → i < n → f i ≡ true

module _ (n : ℕ) (f : ℕ → Bool) (mono : Monotone n f) where
  abbrev Below : ℕ → Type 0
  Below i = (k : ℕ) → k < i → f k ≡ false

  abbrev Above : ℕ → Type 0
  Above j = (k : ℕ) → j ≤ k → k < n → f k ≡ true

  fails_before : (h k : ℕ) → f h ≡ false → k ≤ h → h < n → f k ≡ false
  fails_before h k e le lt = elim (Bool-cases (f k)) [
    | inl t ↦ absurd (true_false (mono k h le lt t) e)
    | inr x ↦ x
  ]
    where
      true_false : {b : Bool} → b ≡ true → b ≡ false → ⊥
      true_false p q = cc

  bisect-IsLeast :
      (fuel i j : ℕ)
      → j < i + fuel
      → i ≤ j
      → j ≤ n
      → Below i
      → Above j
      → IsLeast n f (bisect fuel f i j)
  unfolding bisect
  bisect-IsLeast zero i j lt le b below above = absurd (omega arith)
  bisect-IsLeast (suc fuel) i j lt le b below above = elim (Bool-cases (ltb i j)) [
    | inl open' ↦ elim (Bool-cases (f ((i + j) / 2))) [
      | inl holds ↦
          rw (open', holds)
            (bisect-IsLeast fuel i ((i + j) / 2) (ground arith) (omega arith) (omega arith) below
              (λ k le' lt'. mono ((i + j) / 2) k le' lt' holds))
      | inr fails ↦
          rw (open', fails)
            (bisect-IsLeast fuel ((i + j) / 2 + 1) j (ground arith) (ground arith) b
              (λ k lt'. fails_before ((i + j) / 2) k fails (omega arith) (ground arith)) above)
    ]
    | inr shut ↦ rw shut (record {
      within = omega arith;
      before = below;
      behind = λ k le' lt'. above k (ground arith) lt';
    })
  ]

  -- For a test that holds from some index on, sort.Search returns the first such index, or the length
  -- if there is none.
  pub search_index-IsLeast : IsLeast n f (search_index n f)
  unfolding search_index
  search_index-IsLeast =
      bisect-IsLeast (suc n) 0 n (omega arith) (omega arith) (omega arith)
        (λ k lt. absurd (omega arith)) (λ k le lt. absurd (omega arith))
