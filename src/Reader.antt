-- ===== src/Reader.antt =====
-- bufio.Reader over a connection or a file. What the source delivers is fixed beforehand as the
-- chunks that its reads will return; `failure` is the error of the read after the last one. Every read
-- behind an error finds the end of the input: a connection reports a reset once.
pub mod Lines
pub mod Stream
pub mod Flat
use mathlib.Core.Option
use make_your_own_redis_go.Shared.{
  ℕ, zero, suc, ◌+◌, ◌-◌, ◌≤◌, ◌<◌, Bool, true, false, List, [], ◌∷◌, ◌++◌, Bytes, Option, none,
  some, ◌==◌, if◌then◌else◌, length, ltb, line_feed,
}

pub data ReadError : Type 0 where
  eof broken : ReadError

pub record Reader : Type 0 where
  pub buffered : Bytes
  pub pending : List Bytes
  pub failure : ReadError

-- What one call returns: the bytes and the error, and the reader after it.
pub record Line : Type 0 where
  pub text : Bytes
  pub error : Option ReadError
  pub rest : Reader

-- The bytes up to the first line feed, with it, and those behind.
unfoldable pub cut_line : Bytes → Option (Bytes × Bytes)
cut_line [] = none
cut_line (c ∷ s) =
    if c == line_feed
    then some (c ∷ [], s)
    else elim (cut_line s) [ none ↦ none | some (l, t) ↦ some (c ∷ l, t) ]

unfoldable pub line_of : Bytes → Option (Bytes × Bytes) → List Bytes → ReadError → Line → Line
line_of acc none cs e next = next
line_of acc (some (l, t)) cs e next = record {
  text = acc ++ l;
  error = none;
  rest = record { buffered = t; pending = cs; failure = e };
}

-- Without a line feed in the buffer the next chunk is read.
unfoldable pub read_from : Bytes → Bytes → List Bytes → ReadError → Line
unfolding cut_line line_of
read_from acc buf [] e = line_of acc (cut_line buf) [] e (record {
  text = acc ++ buf;
  error = some e;
  rest = record { buffered = []; pending = []; failure = eof };
})
read_from acc buf (c ∷ cs) e = line_of acc (cut_line buf) (c ∷ cs) e (read_from (acc ++ buf) c cs e)

-- reader.ReadString('\n')
unfoldable pub read_string : Reader → Line
unfolding read_from
read_string r = read_from [] r.buffered r.pending r.failure

unfoldable pub total : List Bytes → ℕ
total [] = 0
total (c ∷ cs) = suc (length c) + total cs

-- An error that is not the end of the input is still to come.
unfoldable pub owed : ReadError → ℕ
owed eof = 0
owed broken = 1

-- The bytes that are still to come, one for each chunk, and one for an error before the end.
unfoldable pub size : Reader → ℕ
unfolding total owed
size r = length r.buffered + total r.pending + owed r.failure

-- All the bytes that are still to come.
unfoldable pub joined : List Bytes → Bytes
joined [] = []
joined (c ∷ cs) = c ++ joined cs

unfoldable pub stream : Reader → Bytes
unfolding joined
stream r = r.buffered ++ joined r.pending

-- The same bytes, all of them in the buffer.
unfoldable pub flatten : Reader → Reader
unfolding stream
flatten r = record { buffered = stream r; pending = []; failure = r.failure }

unfoldable pub next_byte : Bytes → List Bytes → ReadError → Option ℕ × Reader
next_byte (b ∷ buf) cs e = (some b, record { buffered = buf; pending = cs; failure = e })
next_byte [] [] e = (none, record { buffered = []; pending = []; failure = eof })
next_byte [] (c ∷ cs) e = next_byte c cs e

-- reader.ReadByte()
unfoldable pub read_byte : Reader → Option ℕ × Reader
unfolding next_byte
read_byte r = next_byte r.buffered r.pending r.failure

unfoldable pub with_byte :
    Option ℕ × Reader → (Reader → Option Bytes × Reader) → Option Bytes × Reader
with_byte (none, r) next = (none, r)
with_byte (some b, r) next = (Option.map (λ s. b ∷ s) (next r).0, (next r).1)

-- io.ReadFull with a buffer of `n` bytes, and reader.Discard(n): `none` if the source ends before.
unfoldable pub read_full : ℕ → Reader → Option Bytes × Reader
unfolding read_byte with_byte
read_full zero r = (some [], r)
read_full (suc n) r = with_byte (read_byte r) (read_full n)
