-- ===== src/Reader/Lines.antt =====
-- What ReadString returns, and how it uses up the reader.
use make_your_own_redis_go.Shared.{
  ℕ, ◌+◌, ◌≤◌, ◌<◌, ◌≡◌, ◌≢◌, refl, List, [], ◌∷◌, ◌++◌, Bytes, Option, none, some, inl, inr, arith,
  length, line_feed, Lacks, Option-cases,
}
use make_your_own_redis_go.Reader.{
  Reader, Line, ReadError, cut_line, line_of, read_from, read_string, total, owed, size, eof,
  broken,
}

-- A buffer that begins with a line is cut behind its line feed.
pub cut_line-line :
    (l rest : Bytes)
    → Lacks line_feed l
    → cut_line (l ++ line_feed ∷ rest) ≡ some (l ++ line_feed ∷ [], rest)
unfolding cut_line
cut_line-line [] rest h = refl
cut_line-line (c ∷ l) rest h = ground (arith, cut_line-line l rest h.1)

abbrev pub on_buffer : Bytes → Reader → Reader
on_buffer s r = record r { buffered = s }

read_from-line :
    (l rest : Bytes) (cs : List Bytes) (e : ReadError)
    → Lacks line_feed l
    → read_from [] (l ++ line_feed ∷ rest) cs e ≡ record {
      text = l ++ line_feed ∷ [];
      error = none;
      rest = record { buffered = rest; pending = cs; failure = e };
    }
unfolding read_from line_of
read_from-line l rest [] e h = rw (cut_line-line l rest h)
read_from-line l rest (c ∷ cs) e h = rw (cut_line-line l rest h)

pub read_string-line :
    (l rest : Bytes) (r : Reader)
    → Lacks line_feed l
    → read_string (on_buffer (l ++ line_feed ∷ rest) r)
      ≡ record { text = l ++ line_feed ∷ []; error = none; rest = on_buffer rest r }
unfolding read_string
read_string-line l rest r h = read_from-line l rest r.pending r.failure h

cut_line-length :
    (s l t : Bytes) → cut_line s ≡ some (l, t) → (length s ≡ length l + length t) × (0 < length l)
unfolding cut_line
cut_line-length [] l t h = ground arith
cut_line-length (c ∷ s) l t h = elim (Option-cases (cut_line s)) [
  | inl e ↦ ground arith
  | inr (p, e) ↦ ground (arith, cut_line-length s p.0 p.1 e)
]

-- Before the end of the input the reader has shrunk; at the end it has not grown.
abbrev Shrinks : ℕ → Line → Type 0
Shrinks n line = (size line.rest ≤ n) × (line.error ≢ some eof → size line.rest < n)

line_of-Shrinks :
    (acc buf : Bytes) (cs : List Bytes) (e : ReadError) (next : Line)
    → Shrinks (length buf + total cs + owed e) next
    → Shrinks (length buf + total cs + owed e) (line_of acc (cut_line buf) cs e next)
line_of-Shrinks acc buf cs e next h = elim (Option-cases (cut_line buf)) [
  | inl none' ↦ unfold line_of in rw none' h
  | inr (p, some') ↦
      unfold line_of size in
      rw some' (let (a, b) = cut_line-length buf p.0 p.1 some' in (omega arith, λ _. omega arith))
]

read_from-Shrinks :
    (acc buf : Bytes) (cs : List Bytes) (e : ReadError)
    → Shrinks (length buf + total cs + owed e) (read_from acc buf cs e)
unfolding read_from size
read_from-Shrinks acc buf [] eof =
    line_of-Shrinks acc buf [] eof _ (omega arith, λ h. absurd (h refl))
read_from-Shrinks acc buf [] broken =
    line_of-Shrinks acc buf [] broken _ (omega arith, λ h. omega arith)
read_from-Shrinks acc buf (c ∷ cs) e =
    let (a, b) = read_from-Shrinks (acc ++ buf) c cs e in
    line_of-Shrinks acc buf (c ∷ cs) e _ (omega arith, λ h. omega (arith, b h))

pub read_string-size : (r : Reader) → size (read_string r).rest ≤ size r
unfolding read_string
read_string-size r = unfold size in (read_from-Shrinks [] r.buffered r.pending r.failure).0

-- A read that is not at the end of the input has used up at least a byte, or an error.
pub read_string-lt_size :
    (r : Reader) → (read_string r).error ≢ some eof → size (read_string r).rest < size r
unfolding read_string
read_string-lt_size r h = unfold size in (read_from-Shrinks [] r.buffered r.pending r.failure).1 h

line_of-lt :
    (acc buf : Bytes) (cs : List Bytes) (e : ReadError) (next : Line)
    → size next.rest < length buf + total cs + owed e
    → size (line_of acc (cut_line buf) cs e next).rest < length buf + total cs + owed e
line_of-lt acc buf cs e next h = elim (Option-cases (cut_line buf)) [
  | inl none' ↦ unfold line_of in rw none' h
  | inr (p, some') ↦
      unfold line_of size in rw some' (omega (arith, cut_line-length buf p.0 p.1 some'))
]

read_from-lt :
    (acc buf : Bytes) (cs : List Bytes) (e : ReadError)
    → 0 < length buf
    → size (read_from acc buf cs e).rest < length buf + total cs + owed e
unfolding read_from size
read_from-lt acc buf [] e h = line_of-lt acc buf [] e _ (omega arith)
read_from-lt acc buf (c ∷ cs) e h =
    line_of-lt acc buf (c ∷ cs) e _ (omega (arith, (read_from-Shrinks (acc ++ buf) c cs e).0))

-- While something is buffered, a read uses up at least a byte, with an error too.
pub read_string-lt_buffered :
    (r : Reader) → 0 < length r.buffered → size (read_string r).rest < size r
unfolding read_string
read_string-lt_buffered r h = unfold size in read_from-lt [] r.buffered r.pending r.failure h

pub none_end : {e : Option ReadError} → e ≡ none → e ≢ some eof
none_end h k = cc
