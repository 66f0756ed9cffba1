-- ===== src/Commands/Settles.antt =====
-- Every handler comes to an outcome: what the handlers share.
use make_your_own_redis_go.Shared.{
  ℕ, zero, suc, ◌-◌, ◌<◌, List, [], ◌∷◌, ◌++◌, Option, none, some, Bytes, arith, length, inl, inr,
  Bool-cases, ltb,
}
use make_your_own_redis_go.Shared.Int.{ℤ}
use make_your_own_redis_go.Reader.{size}
use make_your_own_redis_go.Reader.Lines.{read_string-lt_buffered}
use make_your_own_redis_go.Text.{trim_space}
use make_your_own_redis_go.Server.{Conn, Replica, InfoValue, text, number}
use make_your_own_redis_go.Server.Handler.{
  World, ◌>>=◌, pure, read_arg, has_buffered, read_line, skip_line, read_checked,
}
use make_your_own_redis_go.Server.Settles.{
  Settled, Settled-after, shrinks-after, Settles, settles_rules, Settles-read_arg,
  Settles-read_checked, Settles-fault, Settles-pure,
}
use make_your_own_redis_go.Commands.{
  require_auth, int_of, string_of, info_int, info_string, store_info, count_command, send_all,
  add_offset, propagate_to, propagate_command, append_to_aof, start_timer, collect_args, rest_args,
}

pub Settles-require_auth : (conn : Conn) → Settles (require_auth conn)
unfolding require_auth
Settles-require_auth conn = search settles_rules

Settles-int_of : (v : Option InfoValue) → Settles (int_of v)
unfolding int_of
Settles-int_of none = search settles_rules
Settles-int_of (some (text s)) = search settles_rules
Settles-int_of (some (number n)) = search settles_rules

Settles-string_of : (v : Option InfoValue) → Settles (string_of v)
unfolding string_of
Settles-string_of none = search settles_rules
Settles-string_of (some (text s)) = search settles_rules
Settles-string_of (some (number n)) = search settles_rules

pub Settles-info_int : (key : Bytes) → Settles (info_int key)
unfolding info_int
Settles-info_int key = search (settles_rules, Settles-int_of)

pub Settles-info_string : (key : Bytes) → Settles (info_string key)
unfolding info_string
Settles-info_string key = search (settles_rules, Settles-string_of)

pub Settles-store_info : (key : Bytes) (v : InfoValue) → Settles (store_info key v)
unfolding store_info
Settles-store_info key v = search settles_rules

pub Settles-count_command : (args : List Bytes) → Settles (count_command args)
unfolding count_command
Settles-count_command args = search (settles_rules, Settles-info_int, Settles-store_info) depth 8

pub Settles-send_all : (rs : List Replica) (bytes : Bytes) → Settles (send_all rs bytes)
unfolding send_all
Settles-send_all [] bytes = search settles_rules
Settles-send_all (r ∷ rs) bytes = let rest = Settles-send_all rs bytes in search settles_rules

Settles-propagate_to : (rs : List Replica) (args : List Bytes) → Settles (propagate_to rs args)
unfolding propagate_to add_offset
Settles-propagate_to [] args = search settles_rules
Settles-propagate_to (r ∷ rs) args = search (settles_rules, Settles-send_all)

pub Settles-propagate_command : (args : List Bytes) → Settles (propagate_command args)
unfolding propagate_command
Settles-propagate_command args = search (settles_rules, Settles-propagate_to)

pub Settles-append_to_aof : (args : List Bytes) → Settles (append_to_aof args)
unfolding append_to_aof
Settles-append_to_aof args = search settles_rules

pub Settles-start_timer : (key : Bytes) (ms : ℤ) → Settles (start_timer key ms)
unfolding start_timer
Settles-start_timer key ms = search settles_rules

skip_line-lt :
    (w : World) → 0 < length w.reader.buffered → size (skip_line w).1.reader < size w.reader
unfolding skip_line read_line
skip_line-lt w h = read_string-lt_buffered w.reader h

trimmed_rest : (u : Unit {0}) → Settles (read_checked >>= λ text. pure (trim_space text))
trimmed_rest u = search settles_rules

-- An argument that is read while something is buffered uses up a byte.
read_arg-lt :
    (w : World) → 0 < length w.reader.buffered → size (read_arg w).1.reader < size w.reader
unfolding read_arg
read_arg-lt w h = omega (
  arith,
  skip_line-lt w h,
  shrinks-after (size w.reader - 1) (skip_line w).0 (skip_line w).1 _
      (omega (arith, skip_line-lt w h)) trimmed_rest,
)

collect_args-Settled :
    (fuel : ℕ) (elems : List Bytes) (w : World)
    → size w.reader < fuel
    → Settled w (collect_args fuel elems w)
unfolding collect_args has_buffered
collect_args-Settled zero elems w h = absurd (omega arith)
collect_args-Settled (suc fuel) elems w h = elim (Bool-cases (ltb 0 (length w.reader.buffered))) [
  | inl e ↦ rw e (
      Settled-after w (read_arg w).0 (read_arg w).1 _ (Settles-read_arg.at w) (λ a.
        collect_args-Settled fuel (elems ++ a ∷ []) (read_arg w).1
          (omega (arith, read_arg-lt w (ground arith)))))
  | inr e ↦ rw e ((Settles-pure elems).at w)
]

-- The loop that reads the remaining arguments ends.
pub Settles-rest_args : Settles rest_args
unfolding rest_args
Settles-rest_args = record {
  at = λ w. collect_args-Settled (suc (size w.reader)) [] w (omega arith);
}

pub ruleset command_rules = (
  settles_rules, Settles-require_auth, Settles-info_int, Settles-info_string, Settles-store_info,
  Settles-count_command, Settles-send_all, Settles-propagate_command, Settles-append_to_aof,
  Settles-start_timer, Settles-rest_args,
)
