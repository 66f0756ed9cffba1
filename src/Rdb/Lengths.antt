-- ===== src/Rdb/Lengths.antt =====
-- Lengths and strings of an RDB file: what Redis writes, and that readLength and readString read it back.
use Prim.Native.Nat.{bit_and, bit_or}
use make_your_own_redis_go.Shared.{
  ℕ, zero, suc, ◌+◌, ◌*◌, ◌/◌, ◌%◌, ◌^◌, ◌<◌, ◌≡◌, refl, ◌∙◌, Bool, true, false, ◌&&◌, [], ◌∷◌,
  ◌++◌, append_assoc, some, Bytes, inl, inr, arith, ltb, ◌==◌, ==_iff, length, Bool-cases,
  if◌then◌else◌,
}
use make_your_own_redis_go.Reader.{Reader}
use make_your_own_redis_go.Reader.Lines.{on_buffer}
use make_your_own_redis_go.Reader.Stream.{read_byte-buffer, read_full-buffer}
use make_your_own_redis_go.Rdb.{
  word_of, read_word, long_length, length_form, length_of, read_length, text_of, read_text,
  big_endian_from, big_endian,
}

-- A test on every number below a bound, by evaluation.
every_below : ℕ → (ℕ → Bool) → Bool
every_below zero f = true
every_below (suc n) f = every_below n f && f n

below_holds : (n : ℕ) (f : ℕ → Bool) (x : ℕ) → every_below n f ≡ true → x < n → f x ≡ true
unfolding every_below
below_holds zero f x h lt = absurd (omega arith)
below_holds (suc n) f x h lt = ground (arith, below_holds n f x)

-- The first two bits of a byte and the other six.
split_byte : ℕ → Bool
split_byte b = (bit_and b 0xC0 / 2 ^ 6 == b / 64) && (bit_and b 0x3F == b % 64)

split_bytes : every_below 256 split_byte ≡ true
unfolding every_below split_byte
split_bytes = refl

byte_form : (b : ℕ) → b < 256 → bit_and b 0xC0 / 2 ^ 6 ≡ b / 64
unfolding split_byte
byte_form b h = ground (arith, below_holds 256 split_byte b split_bytes h)

byte_value : (b : ℕ) → b < 256 → bit_and b 0x3F ≡ b % 64
unfolding split_byte
byte_value b h = ground (arith, below_holds 256 split_byte b split_bytes h)

joins : ℕ → Bool
joins n = bit_or (n / 256 * 2 ^ 8) (n % 256) == n

all_join : every_below 16384 joins ≡ true
unfolding every_below joins
all_join = refl

join_bytes : (n : ℕ) → n < 16384 → bit_or (n / 256 * 2 ^ 8) (n % 256) ≡ n
unfolding joins
join_bytes n h = (==_iff _ n).0 (below_holds 16384 joins n all_join h)

-- The length as Redis writes it: in six bits, in fourteen, or in four bytes behind a byte of their own.
abbrev pub encode_length : ℕ → Bytes
encode_length n =
    if ltb n 64
    then n ∷ []
    else if ltb n 16384
    then (64 + n / 256) ∷ n % 256 ∷ []
    else 128 ∷ n / 2 ^ 24 ∷ n / 2 ^ 16 % 256 ∷ n / 2 ^ 8 % 256 ∷ n % 256 ∷ []

abbrev pub encode_text : Bytes → Bytes
encode_text s = encode_length (length s) ++ s

-- A byte of each of the three forms.
module _ (b : ℕ) (t : Bytes) (r : Reader) (small : b < 256) where
  read_length-byte :
      read_length (on_buffer (b ∷ t) r) ≡ length_form (b / 64) (b % 64) (on_buffer t r)
  unfolding read_length length_of
  read_length-byte = rw (read_byte-buffer b t r, byte_form b small, byte_value b small) refl

big_endian-four :
    (n : ℕ)
    → n < 2 ^ 32
    → big_endian (n / 2 ^ 24 ∷ n / 2 ^ 16 % 256 ∷ n / 2 ^ 8 % 256 ∷ n % 256 ∷ []) ≡ n
unfolding big_endian big_endian_from
big_endian-four n h = omega arith

module _ (n : ℕ) (t : Bytes) (r : Reader) where
  read_length-six : n < 64 → read_length (on_buffer (n ∷ t) r) ≡ (some (n, false), on_buffer t r)
  unfolding length_form
  read_length-six h =
      let form : n / 64 ≡ 0 = omega arith in
      let value : n % 64 ≡ n = omega arith in
      read_length-byte n t r (omega arith) ∙ rw (form, value) refl

  read_length-fourteen :
      n < 16384
      → read_length (on_buffer ((64 + n / 256) ∷ n % 256 ∷ t) r) ≡ (some (n, false), on_buffer t r)
  unfolding length_form long_length
  read_length-fourteen h =
      let form : (64 + n / 256) / 64 ≡ 1 = omega arith in
      let value : (64 + n / 256) % 64 ≡ n / 256 = omega arith in
      read_length-byte (64 + n / 256) (n % 256 ∷ t) r (omega arith)
      ∙ rw (form, value, read_byte-buffer (n % 256) t r, join_bytes n h) refl

  read_length-four :
      n < 2 ^ 32
      → read_length
          (on_buffer (128 ∷ n / 2 ^ 24 ∷ n / 2 ^ 16 % 256 ∷ n / 2 ^ 8 % 256 ∷ n % 256 ∷ t) r)
        ≡ (some (n, false), on_buffer t r)
  unfolding length_form read_word word_of
  read_length-four h =
      let bytes = n / 2 ^ 24 ∷ n / 2 ^ 16 % 256 ∷ n / 2 ^ 8 % 256 ∷ n % 256 ∷ [] in
      read_length-byte 128 (bytes ++ t) r (omega arith)
      ∙ rw (read_full-buffer bytes t r, big_endian-four n h) refl

pub read_length-encode :
    (n : ℕ) (t : Bytes) (r : Reader)
    → n < 2 ^ 32
    → read_length (on_buffer (encode_length n ++ t) r) ≡ (some (n, false), on_buffer t r)
read_length-encode n t r h = elim (Bool-cases (ltb n 64)) [
  | inl six ↦ rw six (read_length-six n t r (ground arith))
  | inr more ↦ elim (Bool-cases (ltb n 16384)) [
    | inl fourteen ↦ rw (more, fourteen) (read_length-fourteen n t r (ground arith))
    | inr four ↦ rw (more, four) (read_length-four n t r h)
  ]
]

-- readString reads back a string whose length fits into 32 bits.
pub read_text-encode :
    (s t : Bytes) (r : Reader)
    → length s < 2 ^ 32
    → read_text (on_buffer (encode_text s ++ t) r) ≡ (some s, on_buffer t r)
unfolding read_text text_of
read_text-encode s t r h =
    rw
      (
        append_assoc (encode_length (length s)) s t,
        read_length-encode (length s) (s ++ t) r h,
        read_full-buffer s t r,
      )
      refl
