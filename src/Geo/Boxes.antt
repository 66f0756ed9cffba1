-- ===== src/Geo/Boxes.antt =====
-- The boxes of Get9BoxRanges: which scores lie in them.
use Prim.Native.Nat.{bit_or}
use native.Mathlib.Nat.{
  mod-lt, div-add-mod, mod-eq_of_lt, mul-le-mul_right, pow-le-pow_right, div-lt_iff_lt-mul,
  pow-zero, pow-succ', div-le_self, lt_of_mul-lt-mul_left,
}
use make_your_own_redis_go.Shared.{
  ℕ, zero, suc, ◌+◌, ◌-◌, ◌*◌, ◌/◌, ◌%◌, ◌^◌, ◌<◌, ◌≤◌, ◌≡◌, refl, sym, ap, ◌∙◌, arith,
}
use make_your_own_redis_go.Geo.Bits.{digit, or-digit, zero-or, or-zero, one_at_least}
use make_your_own_redis_go.Geo.Interleave.{grid_numbers-interleave}
use make_your_own_redis_go.Geo.Spaced.{
  spaced, spaced-digit, spaced-short, spaced-lt, interleave-spaced,
}
use make_your_own_redis_go.Geo.{shl, interleave, grid_numbers}

pow_add : (b s d : ℕ) → b ^ (s + d) ≡ b ^ s * b ^ d
pow_add b zero d = let none : 0 + d ≡ d = omega arith in rw (none, pow-zero b) (omega arith)
pow_add b (suc s) d =
    let more : suc s + d ≡ suc (s + d) = omega arith in
    rw (more, pow-succ' b (s + d), pow-succ' b s, pow_add b s d) (omega arith)

power_le : (b k : ℕ) → 0 < b → k ≤ 26 → b ^ k ≤ b ^ 26
power_le b k some le = pow-le-pow_right some {i = k} {j = 26} le

pow_twice : (s : ℕ) → 2 ^ (2 * s) ≡ 4 ^ s
pow_twice zero = refl
pow_twice (suc s) =
    let more : 2 * suc s ≡ suc (suc (2 * s)) = omega arith in
    rw (more, pow-succ' 2 (suc (2 * s)), pow-succ' 2 (2 * s), pow-succ' 4 s, pow_twice s)
      (omega arith)

cut : (s x : ℕ) → x ≡ digit s (x % 2 ^ s) (x / 2 ^ s)
cut s x = omega (arith, div-add-mod x (2 ^ s))

-- A number of s + d bits: the lowest s of them, and the others, with gaps.
module _ (s d x : ℕ) (all : s + d ≡ 26) (h : x < 2 ^ 26) where
  power : 2 ^ 26 ≡ 2 ^ s * 2 ^ d
  power = ap (λ n. 2 ^ n) (sym all) ∙ pow_add 2 s d

  low-lt : x % 2 ^ s < 2 ^ s
  low-lt = mod-lt x (one_at_least s)

  pub high-lt : x / 2 ^ s < 2 ^ d
  high-lt = (div-lt_iff_lt-mul (one_at_least s)).1 (omega (arith, power))

  spaced-cut : spaced 32 x ≡ spaced s (x % 2 ^ s) + 4 ^ s * spaced 32 (x / 2 ^ s)
  spaced-cut =
      let more : 32 ≡ s + (d + 6) = omega arith in
      let most : 32 ≡ d + (s + 6) = omega arith in
      ap (λ n. spaced n x) more
      ∙ ap (spaced (s + (d + 6))) (cut s x)
      ∙ spaced-digit s (d + 6) (x % 2 ^ s) (x / 2 ^ s) low-lt
      ∙ ap (λ n. spaced s (x % 2 ^ s) + 4 ^ s * n)
          (spaced-short d 6 (x / 2 ^ s) high-lt
            ∙ sym (spaced-short d (s + 6) (x / 2 ^ s) high-lt)
            ∙ ap (λ n. spaced n (x / 2 ^ s)) (sym most))

-- A part of a number of 26 bits is a word.
in_word : (s x : ℕ) → x < 2 ^ 26 → x / 2 ^ s < 2 ^ 32
in_word s x h = omega (arith, div-le_self x (2 ^ s))

four_at_least : (s : ℕ) → 1 ≤ 4 ^ s
four_at_least zero = omega arith
four_at_least (suc s) = omega (arith, four_at_least s)

-- Between two multiples that follow each other there is no other.
same_multiple : (p a b r : ℕ) → p * a ≤ r + p * b → r + p * b < p * suc a → r < p → a ≡ b
same_multiple p a b r low' high' lt =
    let below : b < suc a = lt_of_mul-lt-mul_left p (omega arith) in
    let above : a < suc b = lt_of_mul-lt-mul_left p (omega arith) in omega arith

module _ (s d x y : ℕ) (all : s + d ≡ 26) (p : x < 2 ^ 26) (q : y < 2 ^ 26) where
  -- The lower bits of both numbers.
  abbrev inside : ℕ
  inside = spaced s (x % 2 ^ s) + 2 * spaced s (y % 2 ^ s)

  inside-lt : inside < 4 ^ s
  inside-lt = omega (arith, spaced-lt s (x % 2 ^ s), spaced-lt s (y % 2 ^ s))

  -- A score is that of its cell, with the lower bits behind it.
  interleave-cut : interleave x y ≡ inside + 4 ^ s * interleave (x / 2 ^ s) (y / 2 ^ s)
  interleave-cut =
      interleave-spaced x y (omega arith) (omega arith)
      ∙ rw
          (
            spaced-cut s d x all p,
            spaced-cut s d y all q,
            interleave-spaced (x / 2 ^ s) (y / 2 ^ s) (in_word s x p) (in_word s y q),
          )
          (omega arith)

-- The box of one cell, as numbers.
module _ (s d nx ny : ℕ) (all : s + d ≡ 26) (p : nx < 2 ^ d) (q : ny < 2 ^ d) where
  abbrev cell : ℕ
  cell = interleave nx ny

  grid_lt : (n : ℕ) → n < 2 ^ d → n < 2 ^ 26
  grid_lt n h = let le : 2 ^ d ≤ 2 ^ 26 = power_le 2 d (omega arith) (omega arith) in omega arith

  short : (n : ℕ) → n < 2 ^ d → spaced 32 n ≡ spaced d n
  short n h =
      let most : 32 ≡ d + (s + 6) = omega arith in
      ap (λ k. spaced k n) most ∙ spaced-short d (s + 6) n h

  cell-lt : cell < 4 ^ d
  cell-lt = omega (
    arith,
    interleave-spaced nx ny (omega (arith, grid_lt nx p)) (omega (arith, grid_lt ny q)),
    short nx p,
    short ny q,
    spaced-lt d nx,
    spaced-lt d ny,
  )

  fits : cell * 2 ^ (2 * s) < 2 ^ 64
  fits =
      let wide : 4 ^ 26 ≡ 4 ^ s * 4 ^ d = ap (λ n. 4 ^ n) (sym all) ∙ pow_add 4 s d in
      let less : suc cell * 4 ^ s ≤ 4 ^ d * 4 ^ s = mul-le-mul_right (4 ^ s) cell-lt in
      rw (pow_twice s) (omega (arith, four_at_least s))

  box_low : shl cell (2 * s) ≡ 4 ^ s * cell
  unfolding shl
  box_low = mod-eq_of_lt fits ∙ rw (pow_twice s) (omega arith)

  width : shl 1 (2 * s) ≡ 4 ^ s
  unfolding shl
  width =
      let le : 4 ^ s ≤ 4 ^ 26 = power_le 4 s (omega arith) (omega arith) in
      rw (pow_twice s) (mod-eq_of_lt (omega arith) ∙ omega arith)

  low_digit : 4 ^ s * cell ≡ digit (2 * s) 0 cell
  low_digit = rw (pow_twice s) (omega arith)

  box_high : bit_or (shl cell (2 * s)) (shl 1 (2 * s) - 1) ≡ 4 ^ s * cell + (4 ^ s - 1)
  box_high =
      rw (box_low, width)
        (ap (bit_or (4 ^ s * cell)) (omega arith)
          ∙ ap (λ n. bit_or n (digit (2 * s) (4 ^ s - 1) 0)) low_digit
          ∙ or-digit (2 * s) 0 (4 ^ s - 1) cell 0 (rw (pow_twice s) (four_at_least s))
              (rw (pow_twice s) (omega (arith, four_at_least s)))
          ∙ rw
              (
                zero-or (2 * s) (4 ^ s - 1) (rw (pow_twice s) (omega (arith, four_at_least s))),
                or-zero (2 * d) cell (rw (pow_twice d) cell-lt),
                pow_twice s,
              )
              (omega arith))

  -- A score lies in the box exactly if it is that of two numbers in the cell.
  module _ (x y : ℕ) (p' : x < 2 ^ 26) (q' : y < 2 ^ 26) where
    pub into_box :
        x / 2 ^ s ≡ nx
        → y / 2 ^ s ≡ ny
        → (shl cell (2 * s) ≤ interleave x y)
          × (interleave x y ≤ bit_or (shl cell (2 * s)) (shl 1 (2 * s) - 1))
    into_box e f =
        rw (box_high, box_low, interleave-cut s d x y all p' q', e, f)
          (omega arith, omega (arith, inside-lt s d x y all p' q', four_at_least s))

    pub out_of_box :
        shl cell (2 * s) ≤ interleave x y
        → interleave x y ≤ bit_or (shl cell (2 * s)) (shl 1 (2 * s) - 1)
        → (x / 2 ^ s ≡ nx) × (y / 2 ^ s ≡ ny)
    out_of_box low' high' =
        let other = interleave (x / 2 ^ s) (y / 2 ^ s) in
        let cut_score = interleave-cut s d x y all p' q' in
        let lt = inside-lt s d x y all p' q' in
        let above : 4 ^ s * cell ≤ inside s d x y all p' q' + 4 ^ s * other =
          rw (box_low, cut_score) at low' in
        let below : inside s d x y all p' q' + 4 ^ s * other ≤ 4 ^ s * cell + (4 ^ s - 1) =
          rw (box_high, cut_score) at high' in
        let same : cell ≡ other =
          same_multiple (4 ^ s) cell other (inside s d x y all p' q') above
            (omega (arith, four_at_least s)) lt in
        let grid : grid_numbers (interleave nx ny) ≡ (nx, ny) =
          grid_numbers-interleave nx ny (omega (arith, grid_lt nx p))
            (omega (arith, grid_lt ny q)) in
        let point : grid_numbers other ≡ (x / 2 ^ s, y / 2 ^ s) =
          grid_numbers-interleave (x / 2 ^ s) (y / 2 ^ s) (in_word s x p') (in_word s y q') in
        let numbers = sym point ∙ ap grid_numbers (sym same) ∙ grid in
        (ap (λ n. n.0) numbers, ap (λ n. n.1) numbers)
