-- ===== src/Reader/Flat.antt =====
-- How the source cuts its bytes into chunks does not matter to what is read.
use make_your_own_redis_go.Shared.{
  ℕ, zero, suc, ◌≡◌, refl, sym, List, [], ◌∷◌, ◌++◌, append_assoc, append-nil, Bytes, Option, none,
  some, inl, inr, arith, subst, Option-cases,
}
use make_your_own_redis_go.Reader.{
  Reader, Line, ReadError, eof, cut_line, line_of, read_from, read_string, joined, stream, flatten,
  read_byte, with_byte, read_full,
}
use make_your_own_redis_go.Reader.Stream.{Consumes, read_byte-Consumes}

-- The same bytes and the same error are still to come.
abbrev pub Same : Reader → Reader → Type 0
Same r q = (stream r ≡ stream q) × (r.failure ≡ q.failure)

abbrev pub Agree {ℓ} : {A : Type ℓ} → A × Reader → A × Reader → Type ℓ
Agree p q = (p.0 ≡ q.0) × Same p.1 q.1

pub flatten-Same : (r : Reader) → Same r (flatten r)
unfolding flatten stream joined
flatten-Same r = (sym (append-nil _), refl)

Consumes-Agree :
    (s : Bytes) (e : ReadError) (p q : Option ℕ × Reader)
    → Consumes s e p
    → Consumes s e q
    → Agree p q
Consumes-Agree [] e p q h k = ((cc), ((cc), (cc)))
Consumes-Agree (b ∷ s) e p q h k = ((cc), ((cc), (cc)))

pub read_byte-Agree : (r q : Reader) → Same r q → Agree (read_byte r) (read_byte q)
read_byte-Agree r q h =
    Consumes-Agree (stream r) r.failure (read_byte r) (read_byte q) (read_byte-Consumes r)
      (rw (h.0, h.1) (read_byte-Consumes q))

with_byte-Agree :
    (p q : Option ℕ × Reader) (next : Reader → Option Bytes × Reader)
    → Agree p q
    → ((r t : Reader) → Same r t → Agree (next r) (next t))
    → Agree (with_byte p next) (with_byte q next)
unfolding with_byte
with_byte-Agree (none, r) (none, t) next h k = (refl, h.1)
with_byte-Agree (none, r) (some c, t) next h k = absurd (none_some h.0)
  where
    none_some : none ≡ some c → ⊥
    none_some e = cc
with_byte-Agree (some b, r) (none, t) next h k = absurd (some_none h.0)
  where
    some_none : some b ≡ none → ⊥
    some_none e = cc
with_byte-Agree (some b, r) (some c, t) next h k =
    let more = k r t h.1 in (cc (more.0, h.0), more.1)

pub read_full-Agree : (n : ℕ) (r q : Reader) → Same r q → Agree (read_full n r) (read_full n q)
unfolding read_full
read_full-Agree zero r q h = (refl, h)
read_full-Agree (suc n) r q h =
    with_byte-Agree (read_byte r) (read_byte q) (read_full n) (read_byte-Agree r q h)
      (read_full-Agree n)

-- ReadString on a stream that is in the buffer.
flat_line : Bytes → Bytes → ReadError → Line
flat_line acc s e = line_of acc (cut_line s) [] e (record {
  text = acc ++ s;
  error = some e;
  rest = record { buffered = []; pending = []; failure = eof };
})

abbrev pub SameLine : Line → Line → Type 0
SameLine l k = (l.text ≡ k.text) × (l.error ≡ k.error) × Same l.rest k.rest

-- Where the first line of `buf ++ s` is.
cut_line-append_some :
    (buf s l t : Bytes) → cut_line buf ≡ some (l, t) → cut_line (buf ++ s) ≡ some (l, t ++ s)
unfolding cut_line
cut_line-append_some [] s l t h = cc
cut_line-append_some (c ∷ buf) s l t h = elim (Option-cases (cut_line buf)) [
  | inl e ↦ ground arith
  | inr (p, e) ↦ ground (arith, cut_line-append_some buf s p.0 p.1 e)
]

cut_line-append_none :
    (buf s : Bytes) → cut_line buf ≡ none → cut_line s ≡ none → cut_line (buf ++ s) ≡ none
unfolding cut_line
cut_line-append_none [] s h k = k
cut_line-append_none (c ∷ buf) s h k = elim (Option-cases (cut_line buf)) [
  | inl e ↦ ground (arith, cut_line-append_none buf s)
  | inr (p, e) ↦ ground arith
]

cut_line-append_later :
    (buf s l t : Bytes)
    → cut_line buf ≡ none
    → cut_line s ≡ some (l, t)
    → cut_line (buf ++ s) ≡ some (buf ++ l, t)
unfolding cut_line
cut_line-append_later [] s l t h k = k
cut_line-append_later (c ∷ buf) s l t h k = elim (Option-cases (cut_line buf)) [
  | inl e ↦ ground (arith, cut_line-append_later buf s l t)
  | inr (p, e) ↦ ground arith
]

-- What is read for lack of a line in the buffer is the line of the whole.
flat_line-append :
    (acc buf s : Bytes) (e : ReadError)
    → cut_line buf ≡ none
    → flat_line (acc ++ buf) s e ≡ flat_line acc (buf ++ s) e
unfolding flat_line line_of
flat_line-append acc buf s e h = elim (Option-cases (cut_line s)) [
  | inl k ↦ rw (k, cut_line-append_none buf s h k, append_assoc acc buf s) refl
  | inr (p, k) ↦ rw (k, cut_line-append_later buf s p.0 p.1 h k, append_assoc acc buf p.0) refl
]

read_from-last : (acc buf : Bytes) (e : ReadError) → read_from acc buf [] e ≡ flat_line acc buf e
unfolding read_from flat_line
read_from-last acc buf e = refl

later_line :
    (acc buf : Bytes) (cs : List Bytes) (e : ReadError) (next : Line)
    → cut_line buf ≡ none
    → line_of acc (cut_line buf) cs e next ≡ next
unfolding line_of
later_line acc buf cs e next h = rw h

-- A line that is in the buffer already.
found_line :
    (acc buf s : Bytes) (cs : List Bytes) (e : ReadError) (next : Line) (p : Bytes × Bytes)
    → joined cs ≡ s
    → cut_line buf ≡ some p
    → SameLine (line_of acc (cut_line buf) cs e next) (flat_line acc (buf ++ s) e)
unfolding line_of flat_line stream joined
found_line acc buf s cs e next (l, t) j h =
    rw (h, cut_line-append_some buf s l t h, j) (refl, refl, (sym (append-nil _), refl))

read_from-SameLine :
    (acc buf : Bytes) (cs : List Bytes) (e : ReadError)
    → SameLine (read_from acc buf cs e) (flat_line acc (buf ++ joined cs) e)
unfolding joined read_from
read_from-SameLine acc buf [] e =
    rw (append-nil, read_from-last acc buf e) (refl, refl, (refl, refl))
read_from-SameLine acc buf (c ∷ cs) e = elim (Option-cases (cut_line buf)) [
  | inl h ↦ rw (later_line acc buf (c ∷ cs) e (read_from (acc ++ buf) c cs e) h) (
      subst (SameLine _) (flat_line-append acc buf (c ++ joined cs) e h)
        (read_from-SameLine (acc ++ buf) c cs e))
  | inr (p, h) ↦ found_line acc buf (c ++ joined cs) (c ∷ cs) e _ p refl h
]

read_string-SameLine : (r : Reader) → SameLine (read_string r) (flat_line [] (stream r) r.failure)
unfolding read_string stream
read_string-SameLine r = read_from-SameLine [] r.buffered r.pending r.failure

-- Two readers with the same bytes to come read the same line, and go on agreeing.
pub read_string-Agree : (r q : Reader) → Same r q → SameLine (read_string r) (read_string q)
read_string-Agree r q h =
    let (a, b, c) = read_string-SameLine r in
    let (a', b', c') = read_string-SameLine q in
    let same : flat_line [] (stream r) r.failure ≡ flat_line [] (stream q) q.failure =
      rw (h.0, h.1) refl in
    ((cc), (cc), ((cc), (cc)))
