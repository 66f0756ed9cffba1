-- ===== src/Rdb.antt =====
-- rdb.go: LoadRDB, which reads the keyspace from a file at startup, with readString and readLength.
pub mod Ends
pub mod Format
pub mod RoundTrip
pub mod Lengths
pub mod Chunks
use Prim.Native.Nat.{bit_and, bit_or}
use make_your_own_redis_go.Shared.{
  ℕ, zero, suc, ◌+◌, ◌-◌, ◌*◌, ◌/◌, ◌%◌, ◌^◌, Bool, true, false, ◌||◌, List, [], ◌∷◌, ◌++◌, Option,
  none, some, Bytes, if◌then◌else◌, ◌==◌, ltb, length,
}
use make_your_own_redis_go.Shared.Int.{
  ℤ, pos, negsuc, ◌+ℤ◌, ◌-ℤ◌, leb_ℤ, min_ℤ, max_ℤ, of_bits, times,
}
use make_your_own_redis_go.Shared.Dict.{store}
use make_your_own_redis_go.Text.{itoa, itoa_ℤ}
use make_your_own_redis_go.Reader.{Reader, read_byte, read_full, stream}
use make_your_own_redis_go.Server.{Server}

-- The numbers that binary.Read makes of bytes.
unfoldable pub little_endian : Bytes → ℕ
little_endian [] = 0
little_endian (b ∷ s) = b + 256 * little_endian s

unfoldable pub big_endian_from : ℕ → Bytes → ℕ
big_endian_from acc [] = acc
big_endian_from acc (b ∷ s) = big_endian_from (256 * acc + b) s

unfoldable pub big_endian : Bytes → ℕ
unfolding big_endian_from
big_endian s = big_endian_from 0 s

unfoldable pub word_of : (Bytes → ℕ) → Option Bytes → ℕ
word_of order none = 0
word_of order (some s) = order s

-- `_ = binary.Read(reader, order, &val)` with a variable of `n` bytes: it stays 0 on an error.
unfoldable pub read_word : (Bytes → ℕ) → ℕ → Reader → ℕ × Reader
unfolding word_of
read_word order n r = (word_of order (read_full n r).0, (read_full n r).1)

-- A length, or the number of a special encoding, with the flag that tells the two apart.
abbrev pub Length : Type 0
Length = Option (ℕ × Bool)

-- `(uint32(value) << 8) | uint32(nextByte)`
unfoldable pub long_length : ℕ → Option ℕ × Reader → Length × Reader
long_length value (none, r) = (none, r)
long_length value (some b, r) = (some (bit_or (value * 2 ^ 8) b, false), r)

-- The switch of readLength on the first two bits of the byte.
unfoldable pub length_form : ℕ → ℕ → Reader → Length × Reader
unfolding long_length read_word big_endian
length_form format value r =
    if format == 0
    then (some (value, false), r)
    else if format == 1
    then long_length value (read_byte r)
    else if format == 2
    then (let w = read_word big_endian 4 r in (some (w.0, false), w.1))
    else if format == 3
    then (some (value, true), r)
    else (some (0, false), r)

unfoldable pub length_of : Option ℕ × Reader → Length × Reader
unfolding length_form
length_of (none, r) = (none, r)
length_of (some b, r) = length_form (bit_and b 0xC0 / 2 ^ 6) (bit_and b 0x3F) r

-- readLength; `none` is an error.
unfoldable pub read_length : Reader → Length × Reader
unfolding length_of
read_length r = length_of (read_byte r)

-- The int8 that a byte stands for.
unfoldable pub signed_byte : ℕ → ℤ
signed_byte b = if ltb b 128 then pos b else negsuc (256 - b - 1)

-- The inner switch of readString. What is no integer falls through to the read of a plain string.
unfoldable pub special_text : ℕ → Reader → Option Bytes × Reader
unfolding read_word little_endian signed_byte
special_text n r =
    if n == 0
    then (let w = read_word little_endian 1 r in (some (itoa_ℤ (signed_byte w.0)), w.1))
    else if n == 1
    then (let w = read_word little_endian 2 r in (some (itoa w.0), w.1))
    else if n == 2
    then (let w = read_word little_endian 4 r in (some (itoa w.0), w.1))
    else read_full n r

unfoldable pub text_of : Length × Reader → Option Bytes × Reader
unfolding special_text
text_of (none, r) = (none, r)
text_of (some (n, special), r) = if special then special_text n r else read_full n r

-- readString; `none` is an error.
unfoldable pub read_text : Reader → Option Bytes × Reader
unfolding text_of
read_text r = text_of (read_length r)

-- What one round of the loop comes to: `return`, or the next round.
pub data Step : Type 0 where
  finished : Server → Step
  onward : Reader → Server → Step

unfoldable pub load_value :
    (Bytes → Bytes → Server → Server) → Bytes → Option Bytes × Reader → Server → Step
load_value keep key (none, r) s = finished s
load_value keep key (some val, r) s = onward r (keep key val s)

unfoldable pub load_key : (Bytes → Bytes → Server → Server) → Option Bytes × Reader → Server → Step
unfolding load_value
load_key keep (none, r) s = finished s
load_key keep (some key, r) s = load_value keep key (read_text r) s

-- The two readString of a key and its value, and what is done with them.
unfoldable pub load_pair : (Bytes → Bytes → Server → Server) → Reader → Server → Step
unfolding load_key
load_pair keep r s = load_key keep (read_text r) s

unfoldable pub store_value : Bytes → Bytes → Server → Server
store_value key val s = record s { memory = store key val s.memory }

-- time.UnixMilli and time.Unix of the bits of an int64, in nanoseconds; a time.Time counts seconds from
-- the year 1 in an int64.
unfoldable pub unix_milli : ℕ → ℤ
unix_milli bits = times (of_bits bits) 1000000

unfoldable pub unix_seconds : ℕ → ℤ
unix_seconds bits = times (of_bits ((bits + 62135596800) % 2 ^ 64) -ℤ pos 62135596800) 1000000000

-- time.Until, whose result is cut to an int64.
unfoldable pub time_until : ℤ → ℤ → ℤ
time_until expiry now = min_ℤ (pos (2 ^ 63 - 1)) (max_ℤ (negsuc (2 ^ 63 - 1)) (expiry -ℤ now))

-- A key with an expiry: one that has passed is not stored, for another a goroutine deletes the key.
unfoldable pub store_until : ℤ → Bytes → Bytes → Server → Server
unfolding time_until store_value
store_until expiry key val s =
    let left = time_until expiry s.now in
    if leb_ℤ left (pos 0) then s else record s {
      memory = store key val s.memory;
      timers = s.timers ++ (record { key = key; due = s.now +ℤ left }) ∷ [];
    }

-- The cases 0xFC and 0xFD: eight bytes of time, the byte of the type, the key and the value.
unfoldable pub load_expiring : (ℕ → ℤ) → Reader → Server → Step
unfolding read_word little_endian store_until load_pair
load_expiring unix r s =
    let time = read_word little_endian 8 r in
    load_pair (store_until (unix time.0)) (read_byte time.1).1 s

-- The switch of LoadRDB.
unfoldable pub load_entry : ℕ → Reader → Server → Step
unfolding load_expiring load_pair store_value unix_milli unix_seconds
load_entry b r s =
    if b == 0xFF
    then finished s
    else if b == 0xFA
    then onward (read_text (read_text r).1).1 s
    else if b == 0xFE
    then onward (read_length r).1 s
    else if b == 0xFB
    then onward (read_length (read_length r).1).1 s
    else if b == 0xFC
    then load_expiring unix_milli r s
    else if b == 0xFD
    then load_expiring unix_seconds r s
    else load_pair store_value r s

unfoldable pub load_step : Option ℕ × Reader → Server → Step
unfolding load_entry
load_step (none, r) s = finished s
load_step (some b, r) s = load_entry b r s

unfoldable pub follow : Step → (Reader → Server → Option Server) → Option Server
follow (finished s) next = some s
follow (onward r s) next = next r s

-- The loop, on fuel; `none` when the fuel is used up.
unfoldable pub load_loop : ℕ → Reader → Server → Option Server
unfolding follow load_step
load_loop zero r s = none
load_loop (suc fuel) r s = follow (load_step (read_byte r) s) (load_loop fuel)

-- Without the 9 bytes of the header nothing is loaded. A round takes a byte.
unfoldable pub load_body : Option Bytes × Reader → Server → Option Server
unfolding load_loop
load_body (none, r) s = some s
load_body (some header, r) s = load_loop (suc (length (stream r))) r s

-- LoadRDB, with what os.Open gives for the path made of the directory and the name. Reads from a file
-- that could not be opened fail.
unfoldable pub load_rdb : Bytes → Bytes → Option Reader → Server → Option Server
unfolding load_body
load_rdb [] filename file s = some s
load_rdb (c ∷ dir) [] file s = some s
load_rdb (c ∷ dir) (d ∷ filename) none s = some s
load_rdb (c ∷ dir) (d ∷ filename) (some r) s = load_body (read_full 9 r) s
