-- ===== src/Float.antt =====
-- Go's float64 as its bit pattern, a number below 2^64, with the comparisons of IEEE 754: a NaN is
-- equal to nothing and in no order, and the two zeros are equal.
use make_your_own_redis_go.Shared.{
  ℕ, ◌+◌, ◌-◌, ◌%◌, ◌^◌, Bool, true, false, not, ◌&&◌, ◌||◌, ltb, ◌==◌, if◌then◌else◌, ◌≡◌, refl,
}

abbrev pub Float64 : Type 0
Float64 = ℕ

unfoldable pub is_nan : Float64 → Bool
is_nan b = ltb 0x7ff0000000000000 (b % 2 ^ 63)

-- A number that grows with the value, the same for both zeros.
unfoldable pub order_key : Float64 → ℕ
order_key b = if ltb b (2 ^ 63) then 2 ^ 63 + b else 2 ^ 63 - b % 2 ^ 63

unfoldable pub float_eq : Float64 → Float64 → Bool
float_eq a b = not (is_nan a) && not (is_nan b) && order_key a == order_key b

unfoldable pub float_lt : Float64 → Float64 → Bool
float_lt a b = not (is_nan a) && not (is_nan b) && ltb (order_key a) (order_key b)

-- `a <= b`
unfoldable pub float_le : Float64 → Float64 → Bool
float_le a b = float_lt a b || float_eq a b

-- The value 0 with a positive sign.
abbrev pub float_zero : Float64
float_zero = 0

-- 1.5 < 2.5, -1 < 0, and NaN is not equal to itself.
float_tests :
    (float_lt 0x3ff8000000000000 0x4004000000000000 ≡ true)
    × (float_lt 0xbff0000000000000 float_zero ≡ true)
    × (float_eq 0x7ff8000000000001 0x7ff8000000000001 ≡ false)
    × (float_eq 0x8000000000000000 float_zero ≡ true)
unfolding float_lt float_eq is_nan order_key
float_tests = (refl, refl, refl, refl)
