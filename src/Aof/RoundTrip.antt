-- ===== src/Aof/RoundTrip.antt =====
-- AOFParser ends on every file, and reads back what AppendToAof writes.
use make_your_own_redis_go.Shared.{
  ℕ, zero, suc, ◌≤◌, ◌<◌, ◌≡◌, ◌≢◌, refl, ◌&◌, List, [], ◌∷◌, ◌++◌, append_assoc, none, some, Bytes,
  codes, arith, beq, has_prefix, trim_prefix, length, length-append, line_feed, Lacks-append, inl,
  inr, Option-cases,
}
use make_your_own_redis_go.Shared.Dict.{Dict, store}
use make_your_own_redis_go.Text.{trim_space, to_upper, itoa, atoi}
use make_your_own_redis_go.Text.Trim.{trim_space-line}
use make_your_own_redis_go.Reader.{Reader, cut_line, line_of, read_from, read_string, size}
use make_your_own_redis_go.Reader.Lines.{
  on_buffer, read_string-line, read_string-size, read_string-lt_size, none_end,
}
use make_your_own_redis_go.Resp.{bulk, bulks, array_header, command}
use make_your_own_redis_go.Server.{Server}
use make_your_own_redis_go.Server.Arguments.{IsArgument, itoa-Lacks, bulk_lines}
use make_your_own_redis_go.Aof.{
  read_args, restore, restore_expiry, arg_count, replay_line, replay_read, replay, aof_parser,
}

read_args-size : (n : ℕ) (r : Reader) → size (read_args n r).1 ≤ size r
unfolding read_args
read_args-size zero r = omega arith
read_args-size (suc n) r = omega (
  arith,
  read_args-size n (read_string (read_string r).rest).rest,
  read_string-size (read_string r).rest,
  read_string-size r,
)

replay_line-size : (line : Bytes) (r : Reader) (s : Server) → size (replay_line line r s).0 ≤ size r
unfolding replay_line
replay_line-size line r s = ground (arith, read_args-size (arg_count line) r)

replay-ends : (fuel : ℕ) (r : Reader) (s : Server) → size r < fuel → replay fuel r s ≢ none
unfolding replay replay_read
replay-ends zero r s h = absurd (omega arith)
replay-ends (suc fuel) r s h = elim (Option-cases (read_string r).error) [
  | inl good ↦ rw good (
      replay-ends fuel _ _ (
        omega (
          arith,
          read_string-lt_size r (none_end good),
          replay_line-size (read_string r).text (read_string r).rest s,
        )))
  | inr (e, bad) ↦ rw bad (λ q. cc)
]

-- AOFParser comes to an end on every file: a round for each byte and chunk is enough.
pub aof_parser-ends : (r : Reader) (s : Server) → aof_parser r s ≢ none
unfolding aof_parser
aof_parser-ends r s = replay-ends (suc (size r)) r s (omega arith)

abbrev pub AllArguments : List Bytes → Type 0
AllArguments [] = Unit
AllArguments (a ∷ as') = IsArgument a × AllArguments as'

module _ (a rest : Bytes) (r : Reader) (arg : IsArgument a) where
  -- The two lines of one argument.
  header_line : read_string (on_buffer (bulk a ++ rest) r) ≡ record {
    text = ((b'$' ∷ itoa (length a)) ++ 13 ∷ []) ++ line_feed ∷ [];
    error = none;
    rest = on_buffer ((a ++ 13 ∷ []) ++ line_feed ∷ rest) r;
  }
  header_line = rw bulk_lines (
      read_string-line ((b'$' ∷ itoa (length a)) ++ 13 ∷ []) ((a ++ 13 ∷ []) ++ line_feed ∷ rest) r
        (
          omega arith,
          Lacks-append line_feed (itoa (length a)) (13 ∷ []) (itoa-Lacks (length a)) (omega arith),
        ))

  text_line :
      read_string (on_buffer ((a ++ 13 ∷ []) ++ line_feed ∷ rest) r)
      ≡ record { text = (a ++ 13 ∷ []) ++ line_feed ∷ []; error = none; rest = on_buffer rest r }
  text_line =
      read_string-line (a ++ 13 ∷ []) rest r
        (Lacks-append line_feed a (13 ∷ []) arg.one_line (omega arith))

read_args-bulks :
    (args : List Bytes) (rest : Bytes) (r : Reader)
    → AllArguments args
    → read_args (length args) (on_buffer (bulks args ++ rest) r) ≡ (args, on_buffer rest r)
unfolding read_args bulks
read_args-bulks [] rest r h = refl
read_args-bulks (a ∷ as') rest r h = rw (
  append_assoc,
  header_line a (bulks as' ++ rest) r (h.0),
  text_line a (bulks as' ++ rest) r (h.0),
  trim_space-line a (h.0).trimmed,
  read_args-bulks as' rest r (h.1),
)

-- The command that HandleSet gives to AppendToAof.
abbrev pub set_command : Bytes × Bytes → List Bytes
set_command (key, value) = codes "SET" ∷ key ∷ value ∷ []

-- The file after some SETs, and the keyspace after them.
abbrev pub log : List (Bytes × Bytes) → Bytes
log [] = []
log (p ∷ ps) = command (set_command p) ++ log ps

abbrev pub stored : List (Bytes × Bytes) → Dict Bytes → Dict Bytes
stored [] d = d
stored ((key, value) ∷ ps) d = stored ps (store key value d)

abbrev pub AllPairs : List (Bytes × Bytes) → Type 0
AllPairs [] = Unit
AllPairs ((key, value) ∷ ps) = (IsArgument key × IsArgument value) × AllPairs ps

star_line :
    (args : List Bytes) (rest : Bytes) (r : Reader)
    → length args ≡ 3
    → read_string (on_buffer (command args ++ rest) r)
      ≡ record { text = codes "*3\r\n"; error = none; rest = on_buffer (bulks args ++ rest) r }
unfolding command array_header itoa
star_line args rest r h =
    rw h (read_string-line (codes "*3\r") (bulks args ++ rest) r (ground arith))

set-IsArgument : IsArgument (codes "SET")
unfolding trim_space
set-IsArgument = record { one_line = ground arith; trimmed = refl }

replay_line-set :
    (key value rest : Bytes) (r : Reader) (s : Server)
    → IsArgument key
    → IsArgument value
    → replay_line (codes "*3\r\n") (on_buffer (bulks (set_command (key, value)) ++ rest) r) s
      ≡ (on_buffer rest r, record s { memory = store key value s.memory })
unfolding replay_line has_prefix arg_count atoi trim_space trim_prefix restore restore_expiry beq
    to_upper
replay_line-set key value rest r s k v =
    rw (read_args-bulks (set_command (key, value)) rest r (set-IsArgument & k & v & tt))

log-rounds : (ps : List (Bytes × Bytes)) → length ps ≤ length (log ps)
unfolding command array_header
log-rounds [] = omega arith
log-rounds ((key, value) ∷ ps) =
    omega (arith, length-append (command (set_command (key, value))) (log ps), log-rounds ps)

end_error : (r : Reader) → r.pending ≡ [] → (read_string (on_buffer [] r)).error ≡ some r.failure
unfolding read_string read_from cut_line line_of
end_error r e = rw e refl

replay-log :
    (fuel : ℕ) (ps : List (Bytes × Bytes)) (r : Reader) (s : Server)
    → r.pending ≡ []
    → AllPairs ps
    → length ps < fuel
    → replay fuel (on_buffer (log ps) r) s ≡ some (record s { memory = stored ps s.memory })
unfolding replay replay_read
replay-log zero ps r s e h b = absurd (omega arith)
replay-log (suc fuel) [] r s e h b = rw (end_error r e) refl
replay-log (suc fuel) ((key, value) ∷ ps) r s e h b =
    rw
      (
        star_line (set_command (key, value)) (log ps) r refl,
        replay_line-set key value (log ps) r s h.0.0 h.0.1,
      )
      (replay-log fuel ps r (record s { memory = store key value s.memory }) e (h.1) (omega arith))

-- AOFParser on a file that SETs with arguments of one line have appended to, once it is in the buffer
-- of the reader: it ends, the keyspace is the one after those SETs, and nothing else has changed.
pub aof_parser-log :
    (ps : List (Bytes × Bytes)) (r : Reader) (s : Server)
    → r.pending ≡ []
    → AllPairs ps
    → aof_parser (on_buffer (log ps) r) s ≡ some (record s { memory = stored ps s.memory })
unfolding aof_parser size
aof_parser-log ps r s e h = replay-log _ ps r s e h (omega (arith, log-rounds ps))
