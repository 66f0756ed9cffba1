-- ===== src/Commands.antt =====
-- handlers.go and utils.go: what the handlers of the commands share.
pub mod Settles
pub mod Frame
pub mod Offsets
pub mod Acks
pub mod Strings
pub mod Config
pub mod Acl
pub mod Passwords
pub mod Lists
pub mod Blocking
pub mod ZSets
pub mod Replication
pub mod Slave
pub mod Geo
use make_your_own_redis_go.Shared.{
  ℕ, zero, suc, ◌+◌, Bool, true, false, not, List, [], ◌∷◌, ◌++◌, Option, none, some, Bytes, codes,
  beq, if◌then◌else◌, length,
}
use make_your_own_redis_go.Shared.Int.{ℤ, pos, ◌+ℤ◌, mul_wrap}
use make_your_own_redis_go.Shared.Dict.{load, store}
use make_your_own_redis_go.Reader.{size}
use make_your_own_redis_go.Resp.{line, command, offset_byte_size}
use make_your_own_redis_go.Server.{Server, Conn, Replica, InfoValue, text, number, Timer}
use make_your_own_redis_go.Server.Handler.{
  Handler, World, ok, spun, nil_assertion, ◌>>=◌, ◌>>◌, pure, stop, fault, gets, modify,
  session_user, read_arg, has_buffered, say,
}

-- CheckAuth
unfoldable pub check_auth : Bytes → Bool
check_auth user = not (beq user [])

-- The block that most handlers begin with.
unfoldable pub require_auth : Conn → Handler (Unit {0})
require_auth conn = do
  user ← session_user
  if check_auth user
      then pure tt
      else do say conn (line (codes "-NOAUTH Authentication required.")); stop

-- `role == name` for the entry "role" of ServerInfo.
unfoldable pub is_role : Bytes → Option InfoValue → Bool
is_role name none = false
is_role name (some (text r)) = beq r name
is_role name (some (number n)) = false

unfoldable pub has_role : Bytes → Server → Bool
has_role name s = is_role name (load (codes "role") s.info)

unfoldable pub int_of : Option InfoValue → Handler ℤ
int_of none = fault nil_assertion
int_of (some (text s)) = fault nil_assertion
int_of (some (number n)) = pure n

unfoldable pub string_of : Option InfoValue → Handler Bytes
string_of none = fault nil_assertion
string_of (some (text s)) = pure s
string_of (some (number n)) = fault nil_assertion

-- ServerInfo.Load(key) with the assertion `.(int)` or `.(string)`.
unfoldable pub info_int : Bytes → Handler ℤ
info_int key = do value ← gets (λ s. load key s.info); int_of value

unfoldable pub info_string : Bytes → Handler Bytes
info_string key = do value ← gets (λ s. load key s.info); string_of value

unfoldable pub store_info : Bytes → InfoValue → Handler (Unit {0})
store_info key value = modify (λ s. record s { info = store key value s.info })

-- A replica counts the bytes of the command that it has just processed.
unfoldable pub count_command : List Bytes → Handler (Unit {0})
count_command args = do
  slave ← gets (has_role (codes "slave"))
  if slave
      then (do
        offset ← info_int (codes "repl_offset")
        store_info (codes "repl_offset") (number (offset +ℤ pos (offset_byte_size args))))
      else pure tt

-- One write to each replica; an error is only logged.
unfoldable pub send_all : List Replica → Bytes → Handler (Unit {0})
send_all [] bytes = pure tt
send_all (r ∷ rs) bytes = do say r.conn bytes; send_all rs bytes

unfoldable pub add_offset : ℕ → Handler (Unit {0})
add_offset n = modify (λ s. record s { master_offset = s.master_offset +ℤ pos n })

unfoldable pub propagate_to : List Replica → List Bytes → Handler (Unit {0})
propagate_to [] args = pure tt
propagate_to (r ∷ rs) args = do add_offset (length (command args)); send_all (r ∷ rs) (command args)

-- PropagateCommand
unfoldable pub propagate_command : List Bytes → Handler (Unit {0})
propagate_command args = do replicas ← gets (λ s. s.replicas); propagate_to replicas args

unfoldable pub append_bytes : Bytes → Option Bytes → Option Bytes
append_bytes new none = none
append_bytes new (some old) = some (old ++ new)

-- AppendToAof: without an open file nothing happens. A failure of the file system is not modelled.
unfoldable pub append_to_aof : List Bytes → Handler (Unit {0})
append_to_aof args = modify (λ s. record s { aof = append_bytes (command args) s.aof })

-- The goroutine that deletes `key` after so many milliseconds; time.Duration counts nanoseconds in int64.
unfoldable pub start_timer : Bytes → ℤ → Handler (Unit {0})
start_timer key ms = modify λ s. record s {
  timers = s.timers ++ (record { key = key; due = s.now +ℤ mul_wrap ms 1000000 }) ∷ [];
}

-- `for reader.Buffered() > 0 { … }`: the arguments up to the end of the buffer.
unfoldable pub collect_args : ℕ → List Bytes → Handler (List Bytes)
collect_args zero elems w = (spun, w)
collect_args (suc fuel) elems w =
    (do
      more ← has_buffered
      if more then (do elem ← read_arg; collect_args fuel (elems ++ elem ∷ [])) else pure elems)
      w

-- Each round takes a byte at least, so the size of the reader bounds the rounds.
unfoldable pub rest_args : Handler (List Bytes)
rest_args w = collect_args (suc (size w.reader)) [] w
