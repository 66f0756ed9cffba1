-- ===== src/Geo/Merged.antt =====
-- The last line of interleave: the gaps of one number take up the bits of another.
use Prim.Native.Nat.{bit_and, bit_or}
use native.Mathlib.Nat.{mod-lt, zero-div}
use make_your_own_redis_go.Shared.{
  ℕ, ◌+◌, ◌-◌, ◌*◌, ◌/◌, ◌%◌, ◌^◌, ◌<◌, ◌≡◌, refl, ◌∙◌, List, [], ◌∷◌, arith, length,
}
use make_your_own_redis_go.Geo.Bits.{zero-or, or-zero, and-zero, and-ones}
use make_your_own_redis_go.Geo.Blocks.{
  quad, apart, apart_mask, AllSmall, none-lt, ones-lt, or-quad, and-quad, rest_of,
}

module _ (k : ℕ) where
  -- Numbers with gaps, and others put into the gaps.
  filled : (a b n : ℕ) → 2 ^ k * quad k a 0 b 0 n ≡ quad k 0 a 0 b (2 ^ k * n)
  filled a b n = omega arith

  merged-quad :
      (a b m c d n : ℕ)
      → (a < 2 ^ k) × (b < 2 ^ k)
      → (c < 2 ^ k) × (d < 2 ^ k)
      → bit_or (quad k a 0 b 0 m) (2 ^ k * quad k c 0 d 0 n) ≡ quad k a c b d (bit_or m (2 ^ k * n))
  merged-quad a b m c d n (p, q) (p', q') =
      rw
        (
          filled c d n,
          or-quad k a 0 b 0 m 0 c 0 d (2 ^ k * n) (p, none-lt k, q, none-lt k)
              (none-lt k, p', none-lt k, q'),
          or-zero k a p,
          or-zero k b q,
          zero-or k c p',
          zero-or k d q',
        )
        refl

  pub merged-first :
      (ps qs : List (ℕ × ℕ))
      → length ps ≡ length qs
      → AllSmall k ps
      → AllSmall k qs
      → bit_and (bit_or (apart k ps) (2 ^ k * apart k qs)) (apart_mask k ps) ≡ apart k ps
  unfolding apart apart_mask AllSmall
  merged-first [] [] e h i = let nothing : 2 ^ k * 0 ≡ 0 = omega arith in rw nothing refl
  merged-first [] (q ∷ qs) e h i = absurd (omega arith)
  merged-first (p ∷ ps) [] e h i = absurd (omega arith)
  merged-first ((a, b) ∷ ps) ((c, d) ∷ qs) e (p, q, h) (p', q', i) =
      rw
        (
          merged-quad a b (apart k ps) c d (apart k qs) (p, q) (p', q'),
          and-quad k a c b d _ (2 ^ k - 1) 0 (2 ^ k - 1) 0 (apart_mask k ps) (p, p', q, q')
              (ones-lt k, none-lt k, ones-lt k, none-lt k),
          and-ones k a p,
          and-ones k b q,
          and-zero k c p',
          and-zero k d q',
          merged-first ps qs (omega arith) h i,
        )
        refl

  pub merged-second :
      (ps qs : List (ℕ × ℕ))
      → length ps ≡ length qs
      → AllSmall k ps
      → AllSmall k qs
      → bit_and (bit_or (apart k ps) (2 ^ k * apart k qs) / 2 ^ k) (apart_mask k ps) ≡ apart k qs
  unfolding apart apart_mask AllSmall
  merged-second [] [] e h i =
      let nothing : 2 ^ k * 0 ≡ 0 = omega arith in rw nothing (rw (zero-div (2 ^ k)) refl)
  merged-second [] (q ∷ qs) e h i = absurd (omega arith)
  merged-second (p ∷ ps) [] e h i = absurd (omega arith)
  merged-second ((a, b) ∷ ps) ((c, d) ∷ qs) e (p, q, h) (p', q', i) =
      let m = bit_or (apart k ps) (2 ^ k * apart k qs) in
      let low : m % 2 ^ k < 2 ^ k = mod-lt m (none-lt k) in
      rw
        (
          merged-quad a b (apart k ps) c d (apart k qs) (p, q) (p', q'),
          rest_of k a c b d m p,
          and-quad k c b d (m % 2 ^ k) (m / 2 ^ k) (2 ^ k - 1) 0 (2 ^ k - 1) 0 (apart_mask k ps)
              (p', q, q', low) (ones-lt k, none-lt k, ones-lt k, none-lt k),
          and-ones k c p',
          and-ones k d q',
          and-zero k b q,
          and-zero k (m % 2 ^ k) low,
          merged-second ps qs (omega arith) h i,
        )
        refl

  -- No two bits meet, so that the one is added to the other.
  pub merged-sum :
      (ps qs : List (ℕ × ℕ))
      → length ps ≡ length qs
      → AllSmall k ps
      → AllSmall k qs
      → bit_or (apart k ps) (2 ^ k * apart k qs) ≡ apart k ps + 2 ^ k * apart k qs
  unfolding apart AllSmall
  merged-sum [] [] e h i = let nothing : 2 ^ k * 0 ≡ 0 = omega arith in rw nothing refl
  merged-sum [] (q ∷ qs) e h i = absurd (omega arith)
  merged-sum (p ∷ ps) [] e h i = absurd (omega arith)
  merged-sum ((a, b) ∷ ps) ((c, d) ∷ qs) e (p, q, h) (p', q', i) =
      merged-quad a b (apart k ps) c d (apart k qs) (p, q) (p', q')
      ∙ rw (merged-sum ps qs (omega arith) h i) (omega arith)
