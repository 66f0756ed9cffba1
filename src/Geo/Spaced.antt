-- ===== src/Geo/Spaced.antt =====
-- spreadInt32ToInt64 and interleave bit by bit.
use make_your_own_redis_go.Shared.{
  ℕ, zero, suc, ◌+◌, ◌*◌, ◌/◌, ◌%◌, ◌^◌, ◌<◌, ◌≡◌, refl, sym, ap, ◌∙◌, List, [], ◌∷◌, arith,
}
use make_your_own_redis_go.Geo.Bits.{digit, halves, lowest, no_digit}
use make_your_own_redis_go.Geo.Blocks.{apart, AllSmall}
use make_your_own_redis_go.Geo.Halves.{halve, plain}
use make_your_own_redis_go.Geo.Spread.{ones, ones-AllSmall, spread-ones}
use make_your_own_redis_go.Geo.Interleave.{plain-ones, interleave-sum}
use make_your_own_redis_go.Geo.{spread, interleave}

-- The lowest n bits of a number, each with a gap behind it.
unfoldable pub spaced : ℕ → ℕ → ℕ
spaced zero x = 0
spaced (suc n) x = x % 2 + 4 * spaced n (x / 2)

-- As many bits as the pairs have.
bit_count : List (ℕ × ℕ) → ℕ
bit_count [] = 0
bit_count (p ∷ ps) = suc (suc (bit_count ps))

apart-spaced : (ps : List (ℕ × ℕ)) → AllSmall 1 ps → apart 1 ps ≡ spaced (bit_count ps) (plain 1 ps)
unfolding apart plain spaced AllSmall bit_count
apart-spaced [] h = refl
apart-spaced ((a, b) ∷ ps) (p, q, h) =
    let n = plain 1 ps in
    let first : digit 1 a (digit 1 b n) % 2 ≡ a = omega arith in
    let second : digit 1 a (digit 1 b n) / 2 % 2 ≡ b = omega arith in
    let rest : digit 1 a (digit 1 b n) / 2 / 2 ≡ n = omega arith in
    rw (apart-spaced ps h, first, second, rest) (omega arith)

-- spreadInt32ToInt64 puts a gap behind each of the 32 bits.
pub spread-spaced : (v : ℕ) → v < 2 ^ 32 → spread v ≡ spaced 32 v
unfolding bit_count halve
spread-spaced v h =
    spread-ones v h ∙ apart-spaced (ones v) (ones-AllSmall v h) ∙ ap (spaced 32) (plain-ones v h)

-- For two numbers of 32 bits, interleave takes the bits of the first to the even places and those of
-- the second to the odd ones.
pub interleave-spaced :
    (x y : ℕ) → x < 2 ^ 32 → y < 2 ^ 32 → interleave x y ≡ spaced 32 x + 2 * spaced 32 y
interleave-spaced x y p q =
    interleave-sum x y p q
    ∙ rw (sym (spread-ones x p), sym (spread-ones y q), spread-spaced x p, spread-spaced y q) refl

-- The lower s bits and the others.
pub spaced-digit :
    (s n l h : ℕ) → l < 2 ^ s → spaced (s + n) (digit s l h) ≡ spaced s l + 4 ^ s * spaced n h
unfolding spaced
spaced-digit zero n zero h lt =
    let same : 0 + n ≡ n = omega arith in rw (same, no_digit h) (omega arith)
spaced-digit zero n (suc l) h lt = absurd (omega arith)
spaced-digit (suc s) n l h lt =
    let more : suc s + n ≡ suc (s + n) = omega arith in
    let power : 4 ^ suc s ≡ 4 * 4 ^ s = omega arith in
    rw (more, power, lowest s l h, halves s l h, spaced-digit s n (l / 2) h (omega arith))
      (omega arith)

pub spaced-lt : (n x : ℕ) → 3 * spaced n x < 4 ^ n
unfolding spaced
spaced-lt zero x = omega arith
spaced-lt (suc n) x = omega (arith, spaced-lt n (x / 2))

spaced-none : (n : ℕ) → spaced n 0 ≡ 0
unfolding spaced
spaced-none zero = refl
spaced-none (suc n) = rw (spaced-none n) refl

-- A number of s bits has nothing beyond them.
pub spaced-short : (s n l : ℕ) → l < 2 ^ s → spaced (s + n) l ≡ spaced s l
spaced-short s n l lt =
    let alone : digit s l 0 ≡ l = omega arith in
    ap (spaced (s + n)) (sym alone) ∙ spaced-digit s n l 0 lt ∙ rw (spaced-none n) (omega arith)

-- The score of two numbers below 2^26, as a cell of the grid has them, is below 2^52.
pub interleave-lt : (x y : ℕ) → x < 2 ^ 26 → y < 2 ^ 26 → interleave x y < 2 ^ 52
interleave-lt x y p q = omega (
  arith,
  interleave-spaced x y (omega arith) (omega arith),
  spaced-short 26 6 x p,
  spaced-short 26 6 y q,
  spaced-lt 26 x,
  spaced-lt 26 y,
)
