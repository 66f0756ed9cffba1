-- ===== src/Geo/Bits.antt =====
-- The bit operations of geocoding.go on numbers that are written in digits of k bits.
use Prim.Native.Nat.{digits, bitwise, bit_and, bit_or, bit_and-bitwise, bit_or-bitwise}
use make_your_own_redis_go.Shared.{
  ℕ, zero, suc, ◌+◌, ◌-◌, ◌*◌, ◌/◌, ◌%◌, ◌^◌, ◌<◌, ◌≤◌, ◌≡◌, refl, sym, ap, ◌∙◌, min, max, arith,
}

-- An operation that works bit by bit: `f` on two bits, `z` where the first number has no more.
module _ (z : ℕ → ℕ) (f : ℕ → ℕ → ℕ) (z-bits : (b : ℕ) → z b ≡ z (b / 2) * 2 + f 0 (b % 2)) where
  enough : (n m a b : ℕ) → a ≤ n → a ≤ m → digits z f n a b ≡ digits z f m a b
  enough zero zero a b p q = refl
  enough zero (suc m) zero b p q = refl
  enough zero (suc m) (suc a) b p q = absurd (omega arith)
  enough (suc n) zero zero b p q = refl
  enough (suc n) zero (suc a) b p q = absurd (omega arith)
  enough (suc n) (suc m) zero b p q = refl
  enough (suc n) (suc m) (suc a) b p q =
      ap (λ x. x * 2 + f (suc a % 2) (b % 2))
        (enough n m (suc a / 2) (b / 2) (omega arith) (omega arith))

  lowest_bit : (a b : ℕ) → bitwise z f a b ≡ bitwise z f (a / 2) (b / 2) * 2 + f (a % 2) (b % 2)
  lowest_bit zero b = z-bits b
  lowest_bit (suc a) b =
      ap (λ x. x * 2 + f (suc a % 2) (b % 2))
        (enough a (suc a / 2) (suc a / 2) (b / 2) (omega arith) (omega arith))

and_lowest : (a b : ℕ) → bit_and a b ≡ bit_and (a / 2) (b / 2) * 2 + min (a % 2) (b % 2)
and_lowest a b =
    bit_and-bitwise a b
    ∙ lowest_bit (λ x. 0) min (λ x. omega arith) a b
    ∙ ap (λ x. x * 2 + min (a % 2) (b % 2)) (sym (bit_and-bitwise (a / 2) (b / 2)))

or_lowest : (a b : ℕ) → bit_or a b ≡ bit_or (a / 2) (b / 2) * 2 + max (a % 2) (b % 2)
or_lowest a b =
    bit_or-bitwise a b
    ∙ lowest_bit (λ x. x) max (λ x. omega arith) a b
    ∙ ap (λ x. x * 2 + max (a % 2) (b % 2)) (sym (bit_or-bitwise (a / 2) (b / 2)))

-- A number whose lowest digit of k bits is d.
abbrev pub digit : ℕ → ℕ → ℕ → ℕ
digit k d n = d + 2 ^ k * n

pub no_digit : (n : ℕ) → digit 0 0 n ≡ n
no_digit n = omega arith

doubled : (k n : ℕ) → 2 ^ suc k * n ≡ 2 * (2 ^ k * n)
doubled k n = let power : 2 ^ suc k ≡ 2 * 2 ^ k = omega arith in rw power (omega arith)

pub halves : (k d n : ℕ) → digit (suc k) d n / 2 ≡ digit k (d / 2) n
halves k d n = omega (arith, doubled k n)

pub lowest : (k d n : ℕ) → digit (suc k) d n % 2 ≡ d % 2
lowest k d n = omega (arith, doubled k n)

-- The operation on two numbers is the one on their lowest digits and that on the rest.
module _ (op f : ℕ → ℕ → ℕ)
    (op-lowest : (a b : ℕ) → op a b ≡ op (a / 2) (b / 2) * 2 + f (a % 2) (b % 2))
    (op-none : op 0 0 ≡ 0) where
  op-digit :
      (k a b m n : ℕ)
      → a < 2 ^ k
      → b < 2 ^ k
      → op (digit k a m) (digit k b n) ≡ digit k (op a b) (op m n)
  op-digit zero zero zero m n p q = rw (no_digit m, no_digit n) (omega (arith, op-none))
  op-digit zero zero (suc b) m n p q = absurd (omega arith)
  op-digit zero (suc a) b m n p q = absurd (omega arith)
  op-digit (suc k) a b m n p q =
      op-lowest (digit (suc k) a m) (digit (suc k) b n)
      ∙ rw
          (
            halves k a m,
            halves k b n,
            lowest k a m,
            lowest k b n,
            op-digit k (a / 2) (b / 2) m n (omega arith) (omega arith),
            op-lowest a b,
          )
          (omega (arith, doubled k (op m n)))

pub and-digit :
    (k a b m n : ℕ)
    → a < 2 ^ k
    → b < 2 ^ k
    → bit_and (digit k a m) (digit k b n) ≡ digit k (bit_and a b) (bit_and m n)
and-digit = op-digit bit_and min and_lowest refl

pub or-digit :
    (k a b m n : ℕ)
    → a < 2 ^ k
    → b < 2 ^ k
    → bit_or (digit k a m) (digit k b n) ≡ digit k (bit_or a b) (bit_or m n)
or-digit = op-digit bit_or max or_lowest refl

-- A digit of k bits beside none, and beside k ones.
pub zero-or : (k a : ℕ) → a < 2 ^ k → bit_or 0 a ≡ a
zero-or zero zero h = refl
zero-or zero (suc a) h = absurd (omega arith)
zero-or (suc k) a h = omega (arith, or_lowest 0 a, zero-or k (a / 2) (omega arith))

pub or-zero : (k a : ℕ) → a < 2 ^ k → bit_or a 0 ≡ a
or-zero zero zero h = refl
or-zero zero (suc a) h = absurd (omega arith)
or-zero (suc k) a h = omega (arith, or_lowest a 0, or-zero k (a / 2) (omega arith))

pub and-zero : (k a : ℕ) → a < 2 ^ k → bit_and a 0 ≡ 0
and-zero zero zero h = refl
and-zero zero (suc a) h = absurd (omega arith)
and-zero (suc k) a h = omega (arith, and_lowest a 0, and-zero k (a / 2) (omega arith))

pub one_at_least : (k : ℕ) → 1 ≤ 2 ^ k
one_at_least zero = omega arith
one_at_least (suc k) = omega (arith, one_at_least k)

ones-half : (k : ℕ) → (2 ^ suc k - 1) / 2 ≡ 2 ^ k - 1
ones-half k =
    let power : 2 ^ suc k ≡ 2 * 2 ^ k = omega arith in rw power (omega (arith, one_at_least k))

ones-odd : (k : ℕ) → (2 ^ suc k - 1) % 2 ≡ 1
ones-odd k =
    let power : 2 ^ suc k ≡ 2 * 2 ^ k = omega arith in rw power (omega (arith, one_at_least k))

pub and-ones : (k a : ℕ) → a < 2 ^ k → bit_and a (2 ^ k - 1) ≡ a
and-ones zero zero h = refl
and-ones zero (suc a) h = absurd (omega arith)
and-ones (suc k) a h =
    and_lowest a (2 ^ suc k - 1)
    ∙ rw (ones-half k, ones-odd k, and-ones k (a / 2) (omega arith)) (omega arith)

pub or-lt : (k a b : ℕ) → a < 2 ^ k → b < 2 ^ k → bit_or a b < 2 ^ k
or-lt zero zero zero p q = omega arith
or-lt zero zero (suc b) p q = absurd (omega arith)
or-lt zero (suc a) b p q = absurd (omega arith)
or-lt (suc k) a b p q =
    omega (arith, or_lowest a b, or-lt k (a / 2) (b / 2) (omega arith) (omega arith))
