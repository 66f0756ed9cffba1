-- ===== src/Geo/Spread.antt =====
-- spreadInt32ToInt64 puts a gap behind every bit of a number of 32 bits, and compactInt64ToInt32 takes
-- the gaps out again.
use Prim.Native.Nat.{bit_and}
use native.Mathlib.Nat.{mod-eq_of_lt, mul_comm}
use make_your_own_redis_go.Shared.{
  ℕ, ◌*◌, ◌/◌, ◌%◌, ◌^◌, ◌<◌, ◌≡◌, refl, sym, ap, ◌∙◌, List, [], ◌∷◌, arith,
}
use make_your_own_redis_go.Geo.Blocks.{
  together, apart, together_mask, apart_mask, AllSmall, together-apart, apart-together,
}
use make_your_own_redis_go.Geo.Halves.{halve, full, together-lt, together-halve, halve-AllSmall}
use make_your_own_redis_go.Geo.{shl, shr, widen, narrow, spread, compact}

-- A line of spreadInt32ToInt64, on blocks that fill a word of 64 bits.
widen-apart :
    (k mask : ℕ) (ps : List (ℕ × ℕ))
    → AllSmall k ps
    → full k ps ≡ 2 ^ 64
    → apart_mask k ps ≡ mask
    → widen k mask (together k ps) ≡ apart k ps
unfolding widen shl
widen-apart k mask ps h whole same =
    let fits : 2 ^ k * together k ps < 2 ^ 64 = rw whole at (together-lt k ps h) in
    rw (mul_comm (together k ps) (2 ^ k), mod-eq_of_lt fits, sym same) (together-apart k ps h)

-- A line of compactInt64ToInt32.
narrow-together :
    (k mask : ℕ) (ps : List (ℕ × ℕ))
    → AllSmall k ps
    → together_mask k ps ≡ mask
    → narrow k mask (apart k ps) ≡ together k ps
unfolding narrow shr
narrow-together k mask ps h same = rw (sym same) (apart-together k ps h)

-- A number of 32 bits, cut into words, bytes and so on down to its bits.
abbrev pub words : ℕ → List (ℕ × ℕ)
words v = (v % 2 ^ 16, v / 2 ^ 16) ∷ []

abbrev pub byte_pairs : ℕ → List (ℕ × ℕ)
byte_pairs v = halve 8 (words v)

abbrev pub fours : ℕ → List (ℕ × ℕ)
fours v = halve 4 (byte_pairs v)

abbrev pub twos : ℕ → List (ℕ × ℕ)
twos v = halve 2 (fours v)

abbrev pub ones : ℕ → List (ℕ × ℕ)
ones v = halve 1 (twos v)

pub together-words : (v : ℕ) → together 16 (words v) ≡ v
unfolding together
together-words v = omega arith

module _ (v : ℕ) (h : v < 2 ^ 32) where
  words-AllSmall : AllSmall 16 (words v)
  unfolding AllSmall
  words-AllSmall = (omega arith, omega arith, tt)

  bytes-AllSmall : AllSmall 8 (byte_pairs v)
  bytes-AllSmall = halve-AllSmall 8 refl (words v) words-AllSmall

  fours-AllSmall : AllSmall 4 (fours v)
  fours-AllSmall = halve-AllSmall 4 refl (byte_pairs v) bytes-AllSmall

  twos-AllSmall : AllSmall 2 (twos v)
  twos-AllSmall = halve-AllSmall 2 refl (fours v) fours-AllSmall

  pub ones-AllSmall : AllSmall 1 (ones v)
  ones-AllSmall = halve-AllSmall 1 refl (twos v) twos-AllSmall

  -- The lines of spreadInt32ToInt64, one after the other.
  line_16 : widen 16 0x0000ffff0000ffff v ≡ together 8 (byte_pairs v)
  unfolding full apart_mask halve
  line_16 =
      ap (widen 16 0x0000ffff0000ffff) (sym (together-words v))
      ∙ widen-apart 16 0x0000ffff0000ffff (words v) words-AllSmall refl refl
      ∙ sym (together-halve 8 refl (words v))

  line_8 : widen 8 0x00ff00ff00ff00ff (together 8 (byte_pairs v)) ≡ together 4 (fours v)
  unfolding full apart_mask halve
  line_8 =
      widen-apart 8 0x00ff00ff00ff00ff (byte_pairs v) bytes-AllSmall refl refl
      ∙ sym (together-halve 4 refl (byte_pairs v))

  line_4 : widen 4 0x0f0f0f0f0f0f0f0f (together 4 (fours v)) ≡ together 2 (twos v)
  unfolding full apart_mask halve
  line_4 =
      widen-apart 4 0x0f0f0f0f0f0f0f0f (fours v) fours-AllSmall refl refl
      ∙ sym (together-halve 2 refl (fours v))

  line_2 : widen 2 0x3333333333333333 (together 2 (twos v)) ≡ together 1 (ones v)
  unfolding full apart_mask halve
  line_2 =
      widen-apart 2 0x3333333333333333 (twos v) twos-AllSmall refl refl
      ∙ sym (together-halve 1 refl (twos v))

  line_1 : widen 1 0x5555555555555555 (together 1 (ones v)) ≡ apart 1 (ones v)
  unfolding full apart_mask halve
  line_1 = widen-apart 1 0x5555555555555555 (ones v) ones-AllSmall refl refl

  -- The bits of a number, with a gap behind each.
  pub spread-ones : spread v ≡ apart 1 (ones v)
  unfolding spread
  spread-ones =
      ap
        (λ x.
          widen 1 0x5555555555555555 (
            widen 2 0x3333333333333333 (widen 4 0x0f0f0f0f0f0f0f0f (widen 8 0x00ff00ff00ff00ff x))))
        line_16
      ∙ ap
          (λ x.
            widen 1 0x5555555555555555 (widen 2 0x3333333333333333 (widen 4 0x0f0f0f0f0f0f0f0f x)))
          line_8
      ∙ ap (λ x. widen 1 0x5555555555555555 (widen 2 0x3333333333333333 x)) line_4
      ∙ ap (widen 1 0x5555555555555555) line_2
      ∙ line_1

  -- The lines of compactInt64ToInt32.
  back_1 : narrow 1 0x3333333333333333 (apart 1 (ones v)) ≡ apart 2 (twos v)
  unfolding together_mask halve
  back_1 =
      narrow-together 1 0x3333333333333333 (ones v) ones-AllSmall refl
      ∙ together-halve 1 refl (twos v)

  back_2 : narrow 2 0x0f0f0f0f0f0f0f0f (apart 2 (twos v)) ≡ apart 4 (fours v)
  unfolding together_mask halve
  back_2 =
      narrow-together 2 0x0f0f0f0f0f0f0f0f (twos v) twos-AllSmall refl
      ∙ together-halve 2 refl (fours v)

  back_4 : narrow 4 0x00ff00ff00ff00ff (apart 4 (fours v)) ≡ apart 8 (byte_pairs v)
  unfolding together_mask halve
  back_4 =
      narrow-together 4 0x00ff00ff00ff00ff (fours v) fours-AllSmall refl
      ∙ together-halve 4 refl (byte_pairs v)

  back_8 : narrow 8 0x0000ffff0000ffff (apart 8 (byte_pairs v)) ≡ apart 16 (words v)
  unfolding together_mask halve
  back_8 =
      narrow-together 8 0x0000ffff0000ffff (byte_pairs v) bytes-AllSmall refl
      ∙ together-halve 8 refl (words v)

  back_16 : narrow 16 0x00000000ffffffff (apart 16 (words v)) ≡ v
  unfolding together_mask
  back_16 = narrow-together 16 0x00000000ffffffff (words v) words-AllSmall refl ∙ together-words v

  pub compact-ones : (x : ℕ) → bit_and x 0x5555555555555555 ≡ apart 1 (ones v) → compact x ≡ v
  unfolding compact
  compact-ones x e =
      ap
        (λ y.
          narrow 16 0x00000000ffffffff (
            narrow 8 0x0000ffff0000ffff (
              narrow 4 0x00ff00ff00ff00ff
                (narrow 2 0x0f0f0f0f0f0f0f0f (narrow 1 0x3333333333333333 y))))
          % 2 ^ 32)
        e
      ∙ ap
          (λ y.
            narrow 16 0x00000000ffffffff (
              narrow 8 0x0000ffff0000ffff
                (narrow 4 0x00ff00ff00ff00ff (narrow 2 0x0f0f0f0f0f0f0f0f y)))
            % 2 ^ 32)
          back_1
      ∙ ap
          (λ y.
            narrow 16 0x00000000ffffffff
              (narrow 8 0x0000ffff0000ffff (narrow 4 0x00ff00ff00ff00ff y))
            % 2 ^ 32)
          back_2
      ∙ ap (λ y. narrow 16 0x00000000ffffffff (narrow 8 0x0000ffff0000ffff y) % 2 ^ 32) back_4
      ∙ ap (λ y. narrow 16 0x00000000ffffffff y % 2 ^ 32) back_8
      ∙ ap (λ y. y % 2 ^ 32) back_16
      ∙ mod-eq_of_lt h
