-- ===== src/Server/Arguments.antt =====
-- What the reads of a handler return on the arguments of a command in the protocol.
use make_your_own_redis_go.Shared.{
  ℕ, zero, suc, ◌/◌, ◌≡◌, [], ◌∷◌, ◌++◌, append_assoc, Bytes, none, arith, length, line_feed, Lacks,
  Lacks-append, ltb, inl, inr, Bool-cases,
}
use make_your_own_redis_go.Text.{digits, itoa}
use make_your_own_redis_go.Text.Trim.{IsTrimmed, trim_space-line}
use make_your_own_redis_go.Reader.Lines.{on_buffer, read_string-line}
use make_your_own_redis_go.Resp.{bulk}
use make_your_own_redis_go.Server.Handler.{
  World, ok, read_line, skip_line, checked, read_checked, read_arg, read_arg_logged,
}

-- A text that is one argument: one line, with no white space at its ends.
pub record IsArgument (s : Bytes) : Type 0 where
  pub one_line : Lacks line_feed s
  pub trimmed : IsTrimmed s

-- The session with these bytes in its buffer.
abbrev pub feed : Bytes → World → World
feed s w = record w { reader = on_buffer s (w.reader) }

digits-Lacks :
    (fuel n : ℕ) (out : Bytes) → Lacks line_feed out → Lacks line_feed (digits fuel n out)
unfolding digits
digits-Lacks zero n out h = h
digits-Lacks (suc fuel) n out h = elim (Bool-cases (ltb n 10)) [
  | inl e ↦ rw e (omega arith, h)
  | inr e ↦ rw e (digits-Lacks fuel (n / 10) _ (omega arith, h))
]

pub itoa-Lacks : (n : ℕ) → Lacks line_feed (itoa n)
unfolding itoa
itoa-Lacks n = digits-Lacks (suc n) n [] tt

pub read_line-feed :
    (l rest : Bytes) (w : World)
    → Lacks line_feed l
    → read_line (feed (l ++ line_feed ∷ rest) w) ≡ (ok (l ++ line_feed ∷ [], none), feed rest w)
read_line-feed l rest w h = unfold read_line in rw (read_string-line l rest w.reader h)

pub skip_line-feed :
    (l rest : Bytes) (w : World)
    → Lacks line_feed l
    → skip_line (feed (l ++ line_feed ∷ rest) w) ≡ (ok tt, feed rest w)
unfolding skip_line
skip_line-feed l rest w h = rw (read_line-feed l rest w h)

pub read_checked-feed :
    (l rest : Bytes) (w : World)
    → Lacks line_feed l
    → read_checked (feed (l ++ line_feed ∷ rest) w) ≡ (ok (l ++ line_feed ∷ []), feed rest w)
unfolding read_checked checked
read_checked-feed l rest w h = rw (read_line-feed l rest w h)

pub bulk_lines :
    (s rest : Bytes)
    → bulk s ++ rest
      ≡ ((b'$' ∷ itoa (length s)) ++ 13 ∷ []) ++ line_feed ∷ ((s ++ 13 ∷ []) ++ line_feed ∷ rest)
unfolding bulk
bulk_lines s rest = simp append_assoc

module _ (s rest : Bytes) (w : World) where
  -- The length line of an argument is skipped, and its text comes next.
  pub skip_line-bulk :
      skip_line (feed (bulk s ++ rest) w) ≡ (ok tt, feed ((s ++ 13 ∷ []) ++ line_feed ∷ rest) w)
  skip_line-bulk = rw bulk_lines (
      skip_line-feed ((b'$' ∷ itoa (length s)) ++ 13 ∷ []) _ w (
        omega arith,
        Lacks-append line_feed (itoa (length s)) (13 ∷ []) (itoa-Lacks (length s)) (omega arith),
      ))

  pub read_checked-text :
      Lacks line_feed s
      → read_checked (feed ((s ++ 13 ∷ []) ++ line_feed ∷ rest) w)
        ≡ (ok ((s ++ 13 ∷ []) ++ line_feed ∷ []), feed rest w)
  read_checked-text h =
      read_checked-feed _ rest w (Lacks-append line_feed s (13 ∷ []) h (omega arith))

  -- One argument is read, and the rest stays in the buffer.
  pub read_arg-bulk : IsArgument s → read_arg (feed (bulk s ++ rest) w) ≡ (ok s, feed rest w)
  unfolding read_arg
  read_arg-bulk arg =
      rw (skip_line-bulk, read_checked-text arg.one_line, trim_space-line s arg.trimmed)

  pub read_arg_logged-bulk :
      IsArgument s → read_arg_logged (feed (bulk s ++ rest) w) ≡ (ok s, feed rest w)
  unfolding read_arg_logged
  read_arg_logged-bulk arg = rw (
    skip_line-bulk,
    read_line-feed _ rest w (Lacks-append line_feed s (13 ∷ []) (arg.one_line) (omega arith)),
    trim_space-line s arg.trimmed,
  )
