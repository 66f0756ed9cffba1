-- ===== src/Commands/Frame.antt =====
-- What the shared steps of the handlers leave alone: a property of the session and the server that
-- does not look at the reader, the output, ServerInfo, the offset, the AOF file and the timers.
use make_your_own_redis_go.Shared.{
  ℕ, zero, suc, ◌++◌, Bool, true, false, List, [], ◌∷◌, Option, none, some, Bytes, if◌then◌else◌,
}
use make_your_own_redis_go.Shared.Int.{ℤ}
use make_your_own_redis_go.Shared.Dict.{Dict}
use make_your_own_redis_go.Reader.{Reader, ReadError, size}
use make_your_own_redis_go.Server.{Conn, Replica, InfoValue, text, number, Timer}
use make_your_own_redis_go.Server.Handler.{
  World, Outcome, contains, transmit, write, say, read_line, skip_line, checked, read_checked,
  read_arg, read_arg_logged, has_buffered, session_user, ◌>>=◌, pure,
}
use make_your_own_redis_go.Server.Keeps.{Keeps, keeps_rules}
use make_your_own_redis_go.Commands.{
  require_auth, int_of, info_int, store_info, count_command, send_all, add_offset, propagate_to,
  propagate_command, append_to_aof, start_timer, string_of, info_string, collect_args, rest_args,
}

pub record IsQuiet (P : World → Type 0) : Type 0 where
  pub reads : (w : World) (r : Reader) → P w → P (record w { reader = r })
  pub outputs :
      (w : World) (o : List (ℕ × Bytes))
      → P w
      → P (record w { server = record (w.server) { output = o } })
  pub infos :
      (w : World) (i : Dict InfoValue)
      → P w
      → P (record w { server = record (w.server) { info = i } })
  pub offsets :
      (w : World) (n : ℤ) → P w → P (record w { server = record (w.server) { master_offset = n } })
  pub files :
      (w : World) (f : Option Bytes) → P w → P (record w { server = record (w.server) { aof = f } })
  pub clocks :
      (w : World) (t : List Timer)
      → P w
      → P (record w { server = record (w.server) { timers = t } })

module _ (P : World → Type 0) (q : IsQuiet P) where
  transmitted :
      (dead : Bool) (conn : Conn) (bytes : Bytes) (w : World)
      → P w
      → P (transmit dead conn bytes w).1
  unfolding transmit
  transmitted true conn bytes w h = h
  transmitted false conn bytes w h = q.outputs w _ h

  either : (b : Bool) (x y : Outcome Bool × World) → P x.1 → P y.1 → P (if b then x else y).1
  either true x y hx hy = hx
  either false x y hx hy = hy

  pub Keeps-write : (conn : Conn) (bytes : Bytes) → Keeps P (write conn bytes)
  unfolding write
  Keeps-write conn bytes = record {
    at = λ w h.
        either conn.silent _ _ h (transmitted (contains w.server.dead conn.id) conn bytes w h);
  }

  pub Keeps-say : (conn : Conn) (bytes : Bytes) → Keeps P (say conn bytes)
  unfolding say
  Keeps-say conn bytes = search (keeps_rules, Keeps-write)

  pub Keeps-session_user : Keeps P session_user
  Keeps-session_user = record { at = λ w h. h }

  pub Keeps-read_line : Keeps P read_line
  unfolding read_line
  Keeps-read_line = record { at = λ w h. q.reads w _ h }

  pub Keeps-skip_line : Keeps P skip_line
  unfolding skip_line
  Keeps-skip_line = search (keeps_rules, Keeps-read_line)

  Keeps-checked : (s : Bytes) (e : Option ReadError) → Keeps P (checked s e)
  unfolding checked
  Keeps-checked s none = search keeps_rules
  Keeps-checked s (some e) = search keeps_rules

  pub Keeps-read_checked : Keeps P read_checked
  unfolding read_checked
  Keeps-read_checked = search (keeps_rules, Keeps-read_line, Keeps-checked)

  pub Keeps-read_arg : Keeps P read_arg
  unfolding read_arg
  Keeps-read_arg = search (keeps_rules, Keeps-skip_line, Keeps-read_checked)

  pub Keeps-read_arg_logged : Keeps P read_arg_logged
  unfolding read_arg_logged
  Keeps-read_arg_logged = search (keeps_rules, Keeps-skip_line, Keeps-read_line)

  pub Keeps-has_buffered : Keeps P has_buffered
  unfolding has_buffered
  Keeps-has_buffered = record { at = λ w h. h }

  pub Keeps-require_auth : (conn : Conn) → Keeps P (require_auth conn)
  unfolding require_auth
  Keeps-require_auth conn = search (keeps_rules, Keeps-session_user, Keeps-say)

  Keeps-int_of : (v : Option InfoValue) → Keeps P (int_of v)
  unfolding int_of
  Keeps-int_of none = search keeps_rules
  Keeps-int_of (some (text s)) = search keeps_rules
  Keeps-int_of (some (number n)) = search keeps_rules

  pub Keeps-info_int : (key : Bytes) → Keeps P (info_int key)
  unfolding info_int
  Keeps-info_int key = search (keeps_rules, Keeps-int_of)

  pub Keeps-store_info : (key : Bytes) (v : InfoValue) → Keeps P (store_info key v)
  unfolding store_info
  Keeps-store_info key v = record { at = λ w h. q.infos w _ h }

  pub Keeps-count_command : (args : List Bytes) → Keeps P (count_command args)
  unfolding count_command
  Keeps-count_command args = search (keeps_rules, Keeps-info_int, Keeps-store_info) depth 8

  Keeps-string_of : (v : Option InfoValue) → Keeps P (string_of v)
  unfolding string_of
  Keeps-string_of none = search keeps_rules
  Keeps-string_of (some (text s)) = search keeps_rules
  Keeps-string_of (some (number n)) = search keeps_rules

  pub Keeps-info_string : (key : Bytes) → Keeps P (info_string key)
  unfolding info_string
  Keeps-info_string key = search (keeps_rules, Keeps-string_of)

  Keeps-collect_args : (fuel : ℕ) (elems : List Bytes) → Keeps P (collect_args fuel elems)
  unfolding collect_args
  Keeps-collect_args zero elems = record { at = λ w h. h }
  Keeps-collect_args (suc fuel) elems =
      let step : Keeps P (
          has_buffered >>= λ more.
          if more
          then (read_arg >>= λ elem. collect_args fuel (elems ++ elem ∷ []))
          else pure elems) =
        search (keeps_rules, Keeps-has_buffered, Keeps-read_arg, Keeps-collect_args fuel) in
      record { at = λ w h. step.at w h }

  pub Keeps-rest_args : Keeps P rest_args
  unfolding rest_args
  Keeps-rest_args = record { at = λ w h. (Keeps-collect_args (suc (size w.reader)) []).at w h }

  pub Keeps-send_all : (rs : List Replica) (bytes : Bytes) → Keeps P (send_all rs bytes)
  unfolding send_all
  Keeps-send_all [] bytes = search keeps_rules
  Keeps-send_all (r ∷ rs) bytes =
      let rest = Keeps-send_all rs bytes in search (keeps_rules, Keeps-say)

  Keeps-add_offset : (n : ℕ) → Keeps P (add_offset n)
  unfolding add_offset
  Keeps-add_offset n = record { at = λ w h. q.offsets w _ h }

  Keeps-propagate_to : (rs : List Replica) (args : List Bytes) → Keeps P (propagate_to rs args)
  unfolding propagate_to
  Keeps-propagate_to [] args = search keeps_rules
  Keeps-propagate_to (r ∷ rs) args = search (keeps_rules, Keeps-add_offset, Keeps-send_all)

  pub Keeps-propagate_command : (args : List Bytes) → Keeps P (propagate_command args)
  unfolding propagate_command
  Keeps-propagate_command args = search (keeps_rules, Keeps-propagate_to)

  pub Keeps-append_to_aof : (args : List Bytes) → Keeps P (append_to_aof args)
  unfolding append_to_aof
  Keeps-append_to_aof args = record { at = λ w h. q.files w _ h }

  pub Keeps-start_timer : (key : Bytes) (ms : ℤ) → Keeps P (start_timer key ms)
  unfolding start_timer
  Keeps-start_timer key ms = record { at = λ w h. q.clocks w _ h }

pub ruleset quiet_rules = (
  keeps_rules, Keeps-write, Keeps-say, Keeps-session_user, Keeps-read_line, Keeps-skip_line,
  Keeps-read_checked, Keeps-read_arg, Keeps-read_arg_logged, Keeps-has_buffered, Keeps-require_auth,
  Keeps-info_int, Keeps-info_string, Keeps-rest_args, Keeps-send_all, Keeps-store_info,
  Keeps-count_command, Keeps-propagate_command, Keeps-append_to_aof, Keeps-start_timer,
)
