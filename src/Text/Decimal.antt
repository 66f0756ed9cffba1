-- ===== src/Text/Decimal.antt =====
-- Itoa and Atoi are inverse, and Itoa writes digits only.
use make_your_own_redis_go.Shared.{
  ℕ, zero, suc, ◌+◌, ◌/◌, ◌%◌, ◌^◌, ◌≤◌, ◌<◌, ◌≡◌, refl, true, [], ◌∷◌, Bytes, arith, Bool-cases,
  inl, inr, ltb, ◌∙◌,
}
use make_your_own_redis_go.Shared.Int.{pos}
use make_your_own_redis_go.Text.{number, digits, itoa, parse_digits, atoi}

parse_last :
    (n m : ℕ) (out : Bytes)
    → n < 2 ^ 64
    → m ≡ n / 10
    → parse_digits ((b'0' + n % 10) ∷ out) m ≡ parse_digits out n
unfolding parse_digits
parse_last n m out b e = ground arith

parse_only : (n : ℕ) (out : Bytes) → n < 10 → parse_digits ((b'0' + n) ∷ out) 0 ≡ parse_digits out n
unfolding parse_digits
parse_only n out h = ground arith

-- Digits are read back from the front.
parse-digits :
    (fuel n : ℕ) (out : Bytes)
    → n < fuel
    → n < 2 ^ 64
    → parse_digits (digits fuel n out) 0 ≡ parse_digits out n
unfolding digits
parse-digits zero n out h b = absurd (omega arith)
parse-digits (suc fuel) n out h b = ground (
  arith,
  parse-digits fuel (n / 10) ((b'0' + n % 10) ∷ out),
  parse_last n (n / 10) out b refl,
  parse_only n out,
)

-- What stands at the front of a text of digits.
abbrev StartsWithDigit : Bytes → Type 0
StartsWithDigit [] = ⊥
StartsWithDigit (c ∷ s) = (b'0' ≤ c) × (c ≤ b'9')

digits-StartsWithDigit : (fuel n : ℕ) (out : Bytes) → n < fuel → StartsWithDigit (digits fuel n out)
unfolding digits
digits-StartsWithDigit zero n out h = absurd (omega arith)
digits-StartsWithDigit (suc fuel) n out h = elim (Bool-cases (ltb n 10)) [
  | inl e ↦ rw e (ground arith)
  | inr e ↦ rw e (digits-StartsWithDigit fuel (n / 10) ((b'0' + n % 10) ∷ out) (ground arith))
]

atoi-digits :
    (s : Bytes) (n : ℕ)
    → StartsWithDigit s
    → n < 2 ^ 63
    → parse_digits s 0 ≡ number n
    → atoi s ≡ (pos n, true)
atoi-digits [] n h b e = absurd h
atoi-digits (c ∷ s) n h b e = unfold atoi in ground (arith, e)

-- Atoi reads back what Itoa writes of an `int` that is not negative.
pub atoi-itoa : (n : ℕ) → n < 2 ^ 63 → atoi (itoa n) ≡ (pos n, true)
unfolding itoa
atoi-itoa n h =
    atoi-digits (digits (suc n) n []) n (digits-StartsWithDigit (suc n) n [] (omega arith)) h
      (parse-digits (suc n) n [] (omega arith) (omega arith) ∙ (unfold parse_digits in refl))
