-- ===== src/Rdb/Ends.antt =====
-- LoadRDB uses up the file: every round of its loop takes at least a byte.
use Prim.Native.Nat.{bit_and}
use make_your_own_redis_go.Shared.{
  ℕ, zero, suc, ◌/◌, ◌^◌, ◌≤◌, ◌<◌, ◌≡◌, ◌≢◌, refl, Bool, true, false, [], ◌∷◌, Option, none, some,
  Bytes, arith, length, ◌==◌, if◌then◌else◌,
}
use make_your_own_redis_go.Shared.Int.{ℤ}
use make_your_own_redis_go.Reader.{Reader, ReadError, stream, read_byte, with_byte, read_full}
use make_your_own_redis_go.Reader.Stream.{Consumes, read_byte-Consumes}
use make_your_own_redis_go.Server.{Server}
use make_your_own_redis_go.Rdb.{
  Length, read_word, long_length, length_form, length_of, read_length, special_text, text_of,
  read_text, Step, finished, onward, load_value, load_key, load_pair, load_expiring, load_entry,
  load_step, follow, load_loop, load_body, load_rdb, little_endian, big_endian, store_until,
  store_value, unix_milli, unix_seconds,
}

-- How many bytes are still to come.
abbrev left : Reader → ℕ
left r = length (stream r)

-- Nothing is given back, and a byte that was read is gone.
abbrev Takes : ℕ → Option ℕ × Reader → Type 0
Takes n p = (left p.1 ≤ n) × ((b : ℕ) → p.0 ≡ some b → left p.1 < n)

Consumes-Takes :
    (s : Bytes) (e : ReadError) (p : Option ℕ × Reader) → Consumes s e p → Takes (length s) p
Consumes-Takes [] e p h = rw (h.0, h.1) (omega arith, λ b q. absurd (none_some q))
  where
    none_some : {b : ℕ} → none ≡ some b → ⊥
    none_some q = cc
Consumes-Takes (b ∷ s) e p h = rw (h.1) (omega arith, λ c q. omega arith)

read_byte-Takes : (r : Reader) → Takes (left r) (read_byte r)
read_byte-Takes r = Consumes-Takes (stream r) r.failure (read_byte r) (read_byte-Consumes r)

read_byte-left : (r : Reader) → left (read_byte r).1 ≤ left r
read_byte-left r = (read_byte-Takes r).0

with_byte-left :
    (p : Option ℕ × Reader) (next : Reader → Option Bytes × Reader)
    → left (next p.1).1 ≤ left p.1
    → left (with_byte p next).1 ≤ left p.1
unfolding with_byte
with_byte-left (none, r) next h = omega arith
with_byte-left (some b, r) next h = h

read_full-left : (n : ℕ) (r : Reader) → left (read_full n r).1 ≤ left r
unfolding read_full
read_full-left zero r = omega arith
read_full-left (suc n) r = omega (
  arith,
  read_byte-left r,
  with_byte-left (read_byte r) (read_full n) (read_full-left n (read_byte r).1),
)

read_word-left : (order : Bytes → ℕ) (n : ℕ) (r : Reader) → left (read_word order n r).1 ≤ left r
unfolding read_word
read_word-left order n r = read_full-left n r

long_length-left : (value : ℕ) (p : Option ℕ × Reader) → left (long_length value p).1 ≤ left p.1
unfolding long_length
long_length-left value (none, r) = omega arith
long_length-left value (some b, r) = omega arith

length_form-left : (format value : ℕ) (r : Reader) → left (length_form format value r).1 ≤ left r
unfolding length_form
length_form-left format value r =
    ground
      (arith, long_length-left value (read_byte r), read_byte-left r, read_word-left big_endian 4 r)

length_of-left : (p : Option ℕ × Reader) → left (length_of p).1 ≤ left p.1
unfolding length_of
length_of-left (none, r) = omega arith
length_of-left (some b, r) = length_form-left (bit_and b 0xC0 / 2 ^ 6) (bit_and b 0x3F) r

read_length-left : (r : Reader) → left (read_length r).1 ≤ left r
unfolding read_length
read_length-left r = omega (arith, length_of-left (read_byte r), read_byte-left r)

special_text-left : (n : ℕ) (r : Reader) → left (special_text n r).1 ≤ left r
unfolding special_text
special_text-left n r = ground (
  arith,
  read_word-left little_endian 1 r,
  read_word-left little_endian 2 r,
  read_word-left little_endian 4 r,
  read_full-left n r,
)

text_of-left : (p : Length × Reader) → left (text_of p).1 ≤ left p.1
unfolding text_of
text_of-left (none, r) = omega arith
text_of-left (some (n, true), r) = special_text-left n r
text_of-left (some (n, false), r) = read_full-left n r

read_text-left : (r : Reader) → left (read_text r).1 ≤ left r
unfolding read_text
read_text-left r = omega (arith, text_of-left (read_length r), read_length-left r)

-- The next round, if there is one, has at most `n` bytes.
abbrev Within : ℕ → Step → Type 0
Within n (finished s) = Unit
Within n (onward r s) = left r ≤ n

Within-le : {n k : ℕ} (step : Step) → n ≤ k → Within n step → Within k step
Within-le (finished s) le h = tt
Within-le (onward r s) le h = omega arith

module _ (keep : Bytes → Bytes → Server → Server) where
  load_value-Within :
      (key : Bytes) (p : Option Bytes × Reader) (s : Server)
      → Within (left p.1) (load_value keep key p s)
  unfolding load_value
  load_value-Within key (none, r) s = tt
  load_value-Within key (some val, r) s = omega arith

  load_key-Within : (p : Option Bytes × Reader) (s : Server) → Within (left p.1) (load_key keep p s)
  unfolding load_key
  load_key-Within (none, r) s = tt
  load_key-Within (some key, r) s =
      Within-le (load_value keep key (read_text r) s) (read_text-left r)
        (load_value-Within key (read_text r) s)

  load_pair-Within : (r : Reader) (s : Server) → Within (left r) (load_pair keep r s)
  unfolding load_pair
  load_pair-Within r s =
      Within-le (load_key keep (read_text r) s) (read_text-left r) (load_key-Within (read_text r) s)

load_expiring-Within :
    (unix : ℕ → ℤ) (r : Reader) (s : Server) → Within (left r) (load_expiring unix r s)
unfolding load_expiring
load_expiring-Within unix r s =
    let time = read_word little_endian 8 r in
    Within-le (load_pair (store_until (unix time.0)) (read_byte time.1).1 s)
      (omega (arith, read_byte-left time.1, read_word-left little_endian 8 r))
      (load_pair-Within (store_until (unix time.0)) (read_byte time.1).1 s)

Within-if :
    (n : ℕ) (c : Bool) (x y : Step) → Within n x → Within n y → Within n (if c then x else y)
Within-if n true x y h k = h
Within-if n false x y h k = k

load_entry-Within : (b : ℕ) (r : Reader) (s : Server) → Within (left r) (load_entry b r s)
unfolding load_entry
load_entry-Within b r s = Within-if (left r) (b == 0xFF) _ _ tt (
    Within-if (left r) (b == 0xFA) _ _
      (omega (arith, read_text-left (read_text r).1, read_text-left r))
      (Within-if (left r) (b == 0xFE) _ _ (read_length-left r) (
        Within-if (left r) (b == 0xFB) _ _
          (omega (arith, read_length-left (read_length r).1, read_length-left r))
          (Within-if (left r) (b == 0xFC) _ _ (load_expiring-Within unix_milli r s) (
            Within-if (left r) (b == 0xFD) _ _ (load_expiring-Within unix_seconds r s)
              (load_pair-Within store_value r s))))))

-- The next round, if there is one, has fewer than `n` bytes.
abbrev Below : ℕ → Step → Type 0
Below n (finished s) = Unit
Below n (onward r s) = left r < n

Within-Below : {k n : ℕ} (step : Step) → k < n → Within k step → Below n step
Within-Below (finished s) lt h = tt
Within-Below (onward r s) lt h = omega arith

load_step-Below : (n : ℕ) (p : Option ℕ × Reader) (s : Server) → Takes n p → Below n (load_step p s)
unfolding load_step
load_step-Below n (none, r) s h = tt
load_step-Below n (some b, r) s h =
    Within-Below (load_entry b r s) (h.1 b refl) (load_entry-Within b r s)

follow-ends :
    (n : ℕ) (step : Step) (next : Reader → Server → Option Server)
    → Below n step
    → ((r : Reader) (s : Server) → left r < n → next r s ≢ none)
    → follow step next ≢ none
unfolding follow
follow-ends n (finished s) next h k = λ q. cc
follow-ends n (onward r s) next h k = k r s h

load_loop-ends : (fuel : ℕ) (r : Reader) (s : Server) → left r < fuel → load_loop fuel r s ≢ none
unfolding load_loop
load_loop-ends zero r s h = absurd (omega arith)
load_loop-ends (suc fuel) r s h =
    follow-ends (left r) (load_step (read_byte r) s) (load_loop fuel)
      (load_step-Below (left r) (read_byte r) s (read_byte-Takes r))
      (λ q t lt. load_loop-ends fuel q t (omega arith))

load_body-ends : (p : Option Bytes × Reader) (s : Server) → load_body p s ≢ none
unfolding load_body
load_body-ends (none, r) s = λ q. cc
load_body-ends (some header, r) s = load_loop-ends (suc (left r)) r s (omega arith)

-- LoadRDB comes to an end on every file, whatever its bytes are.
pub load_rdb-ends :
    (dir filename : Bytes) (file : Option Reader) (s : Server) → load_rdb dir filename file s ≢ none
unfolding load_rdb
load_rdb-ends [] filename file s = λ q. cc
load_rdb-ends (c ∷ dir) [] file s = λ q. cc
load_rdb-ends (c ∷ dir) (d ∷ filename) none s = λ q. cc
load_rdb-ends (c ∷ dir) (d ∷ filename) (some r) s = load_body-ends (read_full 9 r) s
