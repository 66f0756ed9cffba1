-- ===== src/Reader/Stream.antt =====
-- Reading bytes: what ReadByte and ReadFull take off the stream.
use make_your_own_redis_go.Shared.{
  ℕ, ◌≡◌, refl, List, [], ◌∷◌, ◌++◌, Bytes, Option, none, some, length,
}
use make_your_own_redis_go.Reader.{
  Reader, ReadError, eof, joined, stream, next_byte, read_byte, with_byte, read_full,
}
use make_your_own_redis_go.Reader.Lines.{on_buffer}

-- A byte is read exactly if the stream has one, and the stream is behind it then.
abbrev pub Consumes : Bytes → ReadError → Option ℕ × Reader → Type 0
Consumes [] e p = (p.0 ≡ none) × (stream p.1 ≡ []) × (p.1.failure ≡ eof)
Consumes (b ∷ s) e p = (p.0 ≡ some b) × (stream p.1 ≡ s) × (p.1.failure ≡ e)

next_byte-Consumes :
    (buf : Bytes) (cs : List Bytes) (e : ReadError)
    → Consumes (buf ++ joined cs) e (next_byte buf cs e)
unfolding next_byte joined stream
next_byte-Consumes (b ∷ buf) cs e = (refl, refl, refl)
next_byte-Consumes [] [] e = (refl, refl, refl)
next_byte-Consumes [] (c ∷ cs) e = next_byte-Consumes c cs e

pub read_byte-Consumes : (r : Reader) → Consumes (stream r) r.failure (read_byte r)
unfolding stream read_byte
read_byte-Consumes r = next_byte-Consumes r.buffered r.pending r.failure

pub read_byte-buffer :
    (b : ℕ) (s : Bytes) (r : Reader) → read_byte (on_buffer (b ∷ s) r) ≡ (some b, on_buffer s r)
unfolding read_byte next_byte
read_byte-buffer b s r = refl

pub read_full-buffer :
    (s t : Bytes) (r : Reader)
    → read_full (length s) (on_buffer (s ++ t) r) ≡ (some s, on_buffer t r)
unfolding read_full with_byte
read_full-buffer [] t r = refl
read_full-buffer (b ∷ s) t r = rw (read_full-buffer s t r)
