-- ===== src/Geo/Blocks.antt =====
-- One line of spreadInt32ToInt64 or compactInt64ToInt32 takes pairs of k bits apart, or puts them
-- together: both work on blocks of 4 k bits, each of which holds a pair.
use Prim.Native.Nat.{bit_and, bit_or}
use native.Mathlib.Nat.{mod-lt, div-add-mod, add-mul-div_left, div-eq_of_lt, zero-div}
use make_your_own_redis_go.Shared.{
  ℕ, ◌-◌, ◌*◌, ◌/◌, ◌%◌, ◌^◌, ◌<◌, ◌≡◌, refl, ap, ◌∙◌, List, [], ◌∷◌, arith,
}
use make_your_own_redis_go.Geo.Bits.{
  digit, and-digit, or-digit, zero-or, or-zero, and-zero, and-ones, or-lt, one_at_least,
}

abbrev pub quad : ℕ → ℕ → ℕ → ℕ → ℕ → ℕ → ℕ
quad k a b c d n = digit k a (digit k b (digit k c (digit k d n)))

-- The pairs with the two numbers of each side by side, and with a gap of k bits behind each number.
unfoldable pub together : ℕ → List (ℕ × ℕ) → ℕ
together k [] = 0
together k ((a, b) ∷ ps) = quad k a b 0 0 (together k ps)

unfoldable pub apart : ℕ → List (ℕ × ℕ) → ℕ
apart k [] = 0
apart k ((a, b) ∷ ps) = quad k a 0 b 0 (apart k ps)

-- The masks: ones where the numbers are.
unfoldable pub together_mask : ℕ → List (ℕ × ℕ) → ℕ
together_mask k [] = 0
together_mask k (p ∷ ps) = quad k (2 ^ k - 1) (2 ^ k - 1) 0 0 (together_mask k ps)

unfoldable pub apart_mask : ℕ → List (ℕ × ℕ) → ℕ
apart_mask k [] = 0
apart_mask k (p ∷ ps) = quad k (2 ^ k - 1) 0 (2 ^ k - 1) 0 (apart_mask k ps)

-- Numbers of k bits.
unfoldable pub AllSmall : ℕ → List (ℕ × ℕ) → Type 0
AllSmall k [] = Unit {0}
AllSmall k ((a, b) ∷ ps) = (a < 2 ^ k) × (b < 2 ^ k) × AllSmall k ps

module _ (k : ℕ) where
  pub none-lt : 0 < 2 ^ k
  none-lt = omega (arith, one_at_least k)

  pub ones-lt : 2 ^ k - 1 < 2 ^ k
  ones-lt = omega (arith, one_at_least k)

  none-or-none : bit_or 0 0 ≡ 0
  none-or-none = refl

  pub or-quad :
      (a b c d m a' b' c' d' n : ℕ)
      → (a < 2 ^ k) × (b < 2 ^ k) × (c < 2 ^ k) × (d < 2 ^ k)
      → (a' < 2 ^ k) × (b' < 2 ^ k) × (c' < 2 ^ k) × (d' < 2 ^ k)
      → bit_or (quad k a b c d m) (quad k a' b' c' d' n)
        ≡ quad k (bit_or a a') (bit_or b b') (bit_or c c') (bit_or d d') (bit_or m n)
  or-quad a b c d m a' b' c' d' n (p, q, r, s) (p', q', r', s') =
      rw
        (
          or-digit k a a' _ _ p p',
          or-digit k b b' _ _ q q',
          or-digit k c c' _ _ r r',
          or-digit k d d' m n s s',
        )
        refl

  pub and-quad :
      (a b c d m a' b' c' d' n : ℕ)
      → (a < 2 ^ k) × (b < 2 ^ k) × (c < 2 ^ k) × (d < 2 ^ k)
      → (a' < 2 ^ k) × (b' < 2 ^ k) × (c' < 2 ^ k) × (d' < 2 ^ k)
      → bit_and (quad k a b c d m) (quad k a' b' c' d' n)
        ≡ quad k (bit_and a a') (bit_and b b') (bit_and c c') (bit_and d d') (bit_and m n)
  and-quad a b c d m a' b' c' d' n (p, q, r, s) (p', q', r', s') =
      rw
        (
          and-digit k a a' _ _ p p',
          and-digit k b b' _ _ q q',
          and-digit k c c' _ _ r r',
          and-digit k d d' m n s s',
        )
        refl

  shifted : (a b n : ℕ) → 2 ^ k * quad k a b 0 0 n ≡ quad k 0 a b 0 (2 ^ k * n)
  shifted a b n = omega arith

  -- `(r | (r << k)) & mask`
  pub together-apart :
      (ps : List (ℕ × ℕ))
      → AllSmall k ps
      → bit_and (bit_or (together k ps) (2 ^ k * together k ps)) (apart_mask k ps) ≡ apart k ps
  unfolding together apart apart_mask AllSmall
  together-apart [] h = let nothing : 2 ^ k * 0 ≡ 0 = omega arith in rw nothing refl
  together-apart ((a, b) ∷ ps) (p, q, h) =
      rw
        (
          shifted a b (together k ps),
          or-quad a b 0 0 (together k ps) 0 a b 0 (2 ^ k * together k ps) (p, q, none-lt, none-lt)
              (none-lt, p, q, none-lt),
          and-quad (bit_or a 0) (bit_or b a) (bit_or 0 b) (bit_or 0 0) _ (2 ^ k - 1) 0 (2 ^ k - 1) 0
              (apart_mask k ps)
              (or-lt k a 0 p none-lt, or-lt k b a q p, or-lt k 0 b none-lt q, none-lt)
              (ones-lt, none-lt, ones-lt, none-lt),
          or-zero k a p,
          zero-or k b q,
          and-ones k a p,
          and-ones k b q,
          and-zero k (bit_or b a) (or-lt k b a q p),
          together-apart ps h,
        )
        refl

  -- Without its lowest digit: the next three, and the lowest of what follows.
  pub rest_of :
      (a b c d n : ℕ) → a < 2 ^ k → quad k a b c d n / 2 ^ k ≡ quad k b c d (n % 2 ^ k) (n / 2 ^ k)
  rest_of a b c d n h =
      let whole : n ≡ digit k (n % 2 ^ k) (n / 2 ^ k) = omega (arith, div-add-mod n (2 ^ k)) in
      add-mul-div_left a (digit k b (digit k c (digit k d n))) none-lt
      ∙ rw (div-eq_of_lt h) (omega arith)
      ∙ ap (λ x. digit k b (digit k c (digit k d x))) whole

  -- `(r | (r >> k)) & mask`
  pub apart-together :
      (ps : List (ℕ × ℕ))
      → AllSmall k ps
      → bit_and (bit_or (apart k ps) (apart k ps / 2 ^ k)) (together_mask k ps) ≡ together k ps
  unfolding together apart together_mask AllSmall
  apart-together [] h = rw (zero-div (2 ^ k)) refl
  apart-together ((a, b) ∷ ps) (p, q, h) =
      let t = apart k ps in
      let low : t % 2 ^ k < 2 ^ k = mod-lt t none-lt in
      rw
        (
          rest_of a 0 b 0 t p,
          or-quad a 0 b 0 t 0 b 0 (t % 2 ^ k) (t / 2 ^ k) (p, none-lt, q, none-lt)
              (none-lt, q, none-lt, low),
          and-quad (bit_or a 0) (bit_or 0 b) (bit_or b 0) (bit_or 0 (t % 2 ^ k)) _ (2 ^ k - 1)
              (2 ^ k - 1) 0 0 (together_mask k ps)
              (
                or-lt k a 0 p none-lt,
                or-lt k 0 b none-lt q,
                or-lt k b 0 q none-lt,
                or-lt k 0 _ none-lt low,
              )
              (ones-lt, ones-lt, none-lt, none-lt),
          or-zero k a p,
          zero-or k b q,
          or-zero k b q,
          zero-or k (t % 2 ^ k) low,
          and-ones k a p,
          and-ones k b q,
          and-zero k b q,
          and-zero k (t % 2 ^ k) low,
          apart-together ps h,
        )
        refl
