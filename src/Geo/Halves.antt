-- ===== src/Geo/Halves.antt =====
-- Blocks of 4 k bits that hold two numbers of k bits each: the two numbers of a pair of 2 k bits, cut in
-- two, side by side are the pair with its gaps.
use native.Mathlib.Nat.{mod-lt, div-add-mod, mul-le-mul_left, div-lt_iff_lt-mul}
use make_your_own_redis_go.Shared.{
  ℕ, suc, ◌+◌, ◌*◌, ◌/◌, ◌%◌, ◌^◌, ◌<◌, ◌≤◌, ◌≡◌, refl, sym, ap, ◌∙◌, List, [], ◌∷◌, arith,
}
use make_your_own_redis_go.Geo.Bits.{digit, one_at_least}
use make_your_own_redis_go.Geo.Blocks.{quad, together, apart, AllSmall}

-- Every number of 2 k bits cut in two.
unfoldable pub halve : ℕ → List (ℕ × ℕ) → List (ℕ × ℕ)
halve k [] = []
halve k ((a, b) ∷ ps) = (a % 2 ^ k, a / 2 ^ k) ∷ (b % 2 ^ k, b / 2 ^ k) ∷ halve k ps

-- One more than the largest number that the blocks can hold.
unfoldable pub full : ℕ → List (ℕ × ℕ) → ℕ
full k [] = 1
full k (p ∷ ps) = 2 ^ k * (2 ^ k * (2 ^ k * (2 ^ k * full k ps)))

digit-lt : (k d m n : ℕ) → d < 2 ^ k → n < m → digit k d n < 2 ^ k * m
digit-lt k d m n p q =
    let less : 2 ^ k * suc n ≤ 2 ^ k * m = mul-le-mul_left (2 ^ k) (omega arith) in omega arith

pub together-lt : (k : ℕ) (ps : List (ℕ × ℕ)) → AllSmall k ps → 2 ^ k * together k ps < full k ps
unfolding together full AllSmall
together-lt k [] h = let nothing : 2 ^ k * 0 ≡ 0 = omega arith in rw nothing (omega arith)
together-lt k ((a, b) ∷ ps) (p, q, h) =
    let none : 0 < 2 ^ k = omega (arith, one_at_least k) in
    let rest = together-lt k ps h in
    let last = digit-lt k 0 (full k ps) (2 ^ k * together k ps) none rest in
    let third = digit-lt k b _ _ q last in
    let second = digit-lt k a _ _ p third in let first = digit-lt k 0 _ _ none second in omega arith

pub apart-lt : (k : ℕ) (ps : List (ℕ × ℕ)) → AllSmall k ps → 2 ^ k * apart k ps < full k ps
unfolding apart full AllSmall
apart-lt k [] h = let nothing : 2 ^ k * 0 ≡ 0 = omega arith in rw nothing (omega arith)
apart-lt k ((a, b) ∷ ps) (p, q, h) =
    let none : 0 < 2 ^ k = omega (arith, one_at_least k) in
    let rest = apart-lt k ps h in
    let last = digit-lt k b (full k ps) (2 ^ k * apart k ps) q rest in
    let third = digit-lt k 0 _ _ none last in
    let second = digit-lt k a _ _ p third in let first = digit-lt k 0 _ _ none second in omega arith

-- The numbers of the pairs one behind the other, without gaps.
unfoldable pub plain : ℕ → List (ℕ × ℕ) → ℕ
plain k [] = 0
plain k ((a, b) ∷ ps) = digit k a (digit k b (plain k ps))

module _ (k : ℕ) (square : 2 ^ (2 * k) ≡ 2 ^ k * 2 ^ k) where
  cut : (a : ℕ) → a ≡ digit k (a % 2 ^ k) (a / 2 ^ k)
  cut a = omega (arith, div-add-mod a (2 ^ k))

  abbrev block : ℕ → ℕ → ℕ → ℕ
  block a b n =
      a + 2 ^ k * 2 ^ k * (0 + 2 ^ k * 2 ^ k * (b + 2 ^ k * 2 ^ k * (0 + 2 ^ k * 2 ^ k * n)))

  regroup :
      (a b c d n : ℕ) → quad k a b 0 0 (quad k c d 0 0 n) ≡ block (digit k a b) (digit k c d) n
  regroup a b c d n = omega arith

  abbrev wide : ℕ → ℕ → ℕ → ℕ
  wide a b n = a + 2 ^ k * 2 ^ k * (b + 2 ^ k * 2 ^ k * n)

  joined_pairs :
      (a b c d n : ℕ)
      → digit k a (digit k b (digit k c (digit k d n))) ≡ wide (digit k a b) (digit k c d) n
  joined_pairs a b c d n = omega arith

  pub together-halve : (ps : List (ℕ × ℕ)) → together k (halve k ps) ≡ apart (2 * k) ps
  unfolding together halve apart
  together-halve [] = refl
  together-halve ((a, b) ∷ ps) =
      rw (together-halve ps, square)
        (regroup (a % 2 ^ k) (a / 2 ^ k) (b % 2 ^ k) (b / 2 ^ k) (apart (2 * k) ps)
          ∙ ap (λ x. block x (digit k (b % 2 ^ k) (b / 2 ^ k)) (apart (2 * k) ps)) (sym (cut a))
          ∙ ap (λ x. block a x (apart (2 * k) ps)) (sym (cut b)))

  pub halve-AllSmall : (ps : List (ℕ × ℕ)) → AllSmall (2 * k) ps → AllSmall k (halve k ps)
  unfolding AllSmall halve
  halve-AllSmall [] h = tt
  halve-AllSmall ((a, b) ∷ ps) (p, q, h) =
      let some : 0 < 2 ^ k = omega (arith, one_at_least k) in
      (
        mod-lt a some,
        (div-lt_iff_lt-mul some).1 (rw square at p),
        (mod-lt b some, (div-lt_iff_lt-mul some).1 (rw square at q), halve-AllSmall ps h),
      )

  pub plain-halve : (ps : List (ℕ × ℕ)) → plain k (halve k ps) ≡ plain (2 * k) ps
  unfolding plain halve
  plain-halve [] = refl
  plain-halve ((a, b) ∷ ps) =
      rw (plain-halve ps, square)
        (joined_pairs (a % 2 ^ k) (a / 2 ^ k) (b % 2 ^ k) (b / 2 ^ k) (plain (2 * k) ps)
          ∙ ap (λ x. wide x (digit k (b % 2 ^ k) (b / 2 ^ k)) (plain (2 * k) ps)) (sym (cut a))
          ∙ ap (λ x. wide a x (plain (2 * k) ps)) (sym (cut b)))
