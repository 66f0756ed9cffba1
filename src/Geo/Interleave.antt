-- ===== src/Geo/Interleave.antt =====
-- interleave, and what Decode makes of a score of Encode.
use Prim.Native.Nat.{bit_and, bit_or}
use native.Mathlib.Nat.{mod-eq_of_lt, mul_comm}
use make_your_own_redis_go.Shared.{ℕ, ◌+◌, ◌*◌, ◌/◌, ◌^◌, ◌<◌, ◌≡◌, refl, ap, ◌∙◌, arith, length}
use make_your_own_redis_go.Float.{Float64}
use make_your_own_redis_go.Geo.Blocks.{apart, apart_mask}
use make_your_own_redis_go.Geo.Merged.{merged-first, merged-second, merged-sum}
use make_your_own_redis_go.Geo.Halves.{halve, full, apart-lt, plain, plain-halve}
use make_your_own_redis_go.Geo.Spread.{
  words, byte_pairs, fours, twos, ones, ones-AllSmall, spread-ones, compact-ones,
}
use make_your_own_redis_go.Geo.{
  Arithmetic, shl, shr, compact, interleave, grid_numbers, normalize, min_latitude, min_longitude,
  latitude_range, longitude_range, encode, decode, cell_centre,
}

module _ (v : ℕ) (h : v < 2 ^ 32) where
  twice-lt : 2 ^ 1 * apart 1 (ones v) < 2 ^ 64
  unfolding full halve
  twice-lt = apart-lt 1 (ones v) (ones-AllSmall v h)

  plain-words : plain 16 (words v) ≡ v
  unfolding plain
  plain-words = omega arith

  pub plain-ones : plain 1 (ones v) ≡ v
  plain-ones =
      plain-halve 1 refl (twos v)
      ∙ plain-halve 2 refl (fours v)
      ∙ plain-halve 4 refl (byte_pairs v)
      ∙ plain-halve 8 refl (words v)
      ∙ plain-words

module _ (x y : ℕ) (p : x < 2 ^ 32) (q : y < 2 ^ 32) where
  interleave-ones : interleave x y ≡ bit_or (apart 1 (ones x)) (2 ^ 1 * apart 1 (ones y))
  unfolding interleave shl
  interleave-ones =
      rw
        (
          spread-ones x p,
          spread-ones y q,
          mul_comm (apart 1 (ones y)) (2 ^ 1),
          mod-eq_of_lt (twice-lt y q),
        )
        refl

  same_length : length (ones x) ≡ length (ones y)
  unfolding halve
  same_length = refl

  pub interleave-sum : interleave x y ≡ apart 1 (ones x) + 2 * apart 1 (ones y)
  interleave-sum =
      interleave-ones
      ∙ merged-sum 1 (ones x) (ones y) same_length (ones-AllSmall x p) (ones-AllSmall y q)

  even_bits : bit_and (interleave x y) 0x5555555555555555 ≡ apart 1 (ones x)
  unfolding apart_mask halve
  even_bits =
      ap (λ n. bit_and n 0x5555555555555555) interleave-ones
      ∙ merged-first 1 (ones x) (ones y) same_length (ones-AllSmall x p) (ones-AllSmall y q)

  odd_bits : bit_and (interleave x y / 2 ^ 1) 0x5555555555555555 ≡ apart 1 (ones y)
  unfolding apart_mask halve
  odd_bits =
      ap (λ n. bit_and (n / 2 ^ 1) 0x5555555555555555) interleave-ones
      ∙ merged-second 1 (ones x) (ones y) same_length (ones-AllSmall x p) (ones-AllSmall y q)

  pub grid_numbers-interleave : grid_numbers (interleave x y) ≡ (x, y)
  unfolding grid_numbers shr
  grid_numbers-interleave =
      ap (λ n. (n, compact (interleave x y / 2 ^ 1))) (compact-ones x p (interleave x y) even_bits)
      ∙ ap (λ n. (x, n)) (compact-ones y q (interleave x y / 2 ^ 1) odd_bits)

module _ (m : Arithmetic) (lat lon : Float64) where
  abbrev pub latitude_number : ℕ
  latitude_number = m.to_uint32 (normalize m lat (min_latitude m) (latitude_range m))

  abbrev pub longitude_number : ℕ
  longitude_number = m.to_uint32 (normalize m lon (min_longitude m) (longitude_range m))

  -- If the latitude and the longitude, normalized and truncated, are numbers of 32 bits, then decoding
  -- their score gives the centre of the cell with just these two numbers.
  pub decode-encode :
      latitude_number < 2 ^ 32
      → longitude_number < 2 ^ 32
      → decode m (encode m lat lon) ≡ cell_centre m latitude_number longitude_number
  unfolding decode encode
  decode-encode p q =
      ap (λ g. cell_centre m g.0 g.1) (grid_numbers-interleave latitude_number longitude_number p q)
