-- ===== src/Text.antt =====
-- The functions of `strings` and `strconv` that the server calls on the lines that it reads. Bytes
-- from 128 on are left alone: case and white space are those of ASCII.
pub mod Trim
pub mod Decimal
pub mod Words
use make_your_own_redis_go.Shared.{
  ℕ, zero, suc, ◌+◌, ◌-◌, ◌*◌, ◌/◌, ◌%◌, ◌^◌, Bool, true, false, ◌&&◌, ◌||◌, List, [], ◌∷◌, ◌++◌,
  Bytes, map, reverse, ltb, leb, ◌==◌, if◌then◌else◌, codes, ◌≡◌, refl,
}
use make_your_own_redis_go.Shared.Int.{ℤ, pos, negsuc, sub_ℕ}

-- unicode.IsSpace on ASCII.
unfoldable pub is_space : ℕ → Bool
is_space c = c == 32 || leb 9 c && leb c 13

unfoldable pub trim_left : Bytes → Bytes
unfolding is_space
trim_left [] = []
trim_left (c ∷ s) = let rest = trim_left s in if is_space c then rest else c ∷ s

-- strings.TrimSpace
unfoldable pub trim_space : Bytes → Bytes
unfolding trim_left
trim_space s = reverse (trim_left (reverse (trim_left s)))

unfoldable pub upper_byte : ℕ → ℕ
upper_byte c = if leb b'a' c && leb c b'z' then c - 32 else c

-- strings.ToUpper
unfoldable pub to_upper : Bytes → Bytes
unfolding upper_byte
to_upper s = map upper_byte s

-- The digits of `n` before `out`; the fuel is above the number of digits.
unfoldable pub digits : ℕ → ℕ → Bytes → Bytes
digits zero n out = out
digits (suc fuel) n out =
    let more = digits fuel (n / 10) ((b'0' + n % 10) ∷ out) in
    if ltb n 10 then (b'0' + n) ∷ out else more

-- strconv.Itoa and the verb %d, for a number that is not negative.
unfoldable pub itoa : ℕ → Bytes
unfolding digits
itoa n = digits (suc n) n []

unfoldable pub itoa_ℤ : ℤ → Bytes
unfolding itoa
itoa_ℤ (pos n) = itoa n
itoa_ℤ (negsuc n) = b'-' ∷ itoa (suc n)

-- The outcome of strconv.ParseUint in base 10: the value, a syntax error or the range error.
pub data Parsed : Type 0 where
  number : ℕ → Parsed
  syntax range : Parsed

unfoldable pub is_digit : ℕ → Bool
is_digit c = leb b'0' c && leb c b'9'

unfoldable pub parse_digits : Bytes → ℕ → Parsed
unfolding is_digit
parse_digits [] n = number n
parse_digits (c ∷ s) n =
    let rest = parse_digits s (n * 10 + (c - b'0')) in
    if is_digit c then (if leb (2 ^ 64) (n * 10 + (c - b'0')) then range else rest) else syntax

unfoldable pub parse_uint : Bytes → Parsed
unfolding parse_digits
parse_uint [] = syntax
parse_uint (c ∷ s) = parse_digits (c ∷ s) 0

-- What Atoi makes of the magnitude that follows the sign: the value and `err == nil`.
unfoldable pub signed : Bool → Parsed → ℤ × Bool
signed neg syntax = (pos 0, false)
signed true range = (negsuc (2 ^ 63 - 1), false)
signed false range = (pos (2 ^ 63 - 1), false)
signed true (number n) = if ltb (2 ^ 63) n then (negsuc (2 ^ 63 - 1), false) else (sub_ℕ 0 n, true)
signed false (number n) = if leb (2 ^ 63) n then (pos (2 ^ 63 - 1), false) else (pos n, true)

-- strconv.Atoi: one sign, then digits; out of range it saturates and reports the error.
unfoldable pub atoi : Bytes → ℤ × Bool
unfolding parse_uint signed
atoi [] = (pos 0, false)
atoi (c ∷ s) =
    if c == b'-'
    then signed true (parse_uint s)
    else if c == b'+'
    then signed false (parse_uint s)
    else signed false (parse_uint (c ∷ s))

trims : trim_space (codes " \tGet \r\n") ≡ codes "Get"
unfolding trim_space
trims = refl

prints : itoa 6379 ≡ codes "6379"
unfolding itoa
prints = refl

reads : atoi (codes "-12") ≡ (negsuc 11, true)
unfolding atoi
reads = refl

saturates : atoi (codes "99999999999999999999") ≡ (pos 9223372036854775807, false)
unfolding atoi
saturates = refl
