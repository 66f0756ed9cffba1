-- ===== src/Commands/Strings.antt =====
-- handlers.go: PING, ECHO, SET and GET.
pub mod Memory
use make_your_own_redis_go.Shared.{
  Bool, true, false, List, [], ◌∷◌, Option, none, some, Bytes, codes, beq, if◌then◌else◌,
}
use make_your_own_redis_go.Shared.Dict.{load, store}
use make_your_own_redis_go.Text.{trim_space, to_upper, atoi}
use make_your_own_redis_go.Reader.{ReadError}
use make_your_own_redis_go.Resp.{bulk, line, null_bulk}
use make_your_own_redis_go.Server.{Conn}
use make_your_own_redis_go.Server.Handler.{
  Handler, ◌>>=◌, ◌>>◌, pure, stop, gets, modify, read_line, read_checked, read_arg, skip_line,
  has_buffered, write, say,
}
use make_your_own_redis_go.Commands.{
  require_auth, has_role, count_command, propagate_command, append_to_aof, start_timer,
}

-- HandlePing
unfoldable pub handle_ping : Conn → Handler (Unit {0})
handle_ping conn = do
  require_auth conn
  done ← write conn (line (codes "+PONG"))
  if done then count_command (codes "PING" ∷ []) else stop

-- HandleEcho
unfoldable pub handle_echo : Conn → Handler (Unit {0})
handle_echo conn = do require_auth conn; content ← read_arg; say conn (bulk content)

unfoldable pub expire_after : Bytes → Bytes → Option ReadError → Handler (Unit {0})
expire_after key tte (some e) = stop
expire_after key tte none = start_timer key (atoi (trim_space tte)).0

-- The option that may stand behind the value.
unfoldable pub set_option : Bytes → Handler (Unit {0})
set_option key = do
  skip_line
  option ← read_checked
  if beq (to_upper (trim_space option)) (codes "PX")
      then (do skip_line; (tte, error) ← read_line; expire_after key tte error)
      else pure tt

-- What a write does behind the store: a replica counts, a master propagates and logs.
unfoldable pub after_set : Bytes → Bytes → Handler (Unit {0})
after_set key value = do
  count_command (codes "SET" ∷ key ∷ value ∷ [])
  master ← gets (has_role (codes "master"))
  if master
      then (do
        propagate_command (codes "SET" ∷ key ∷ value ∷ [])
        append_to_aof (codes "SET" ∷ key ∷ value ∷ []))
      else pure tt

-- HandleSet
unfoldable pub handle_set : Conn → Handler (Unit {0})
handle_set conn = do
  require_auth conn
  key ← read_arg
  value ← read_arg
  modify (λ s. record s { memory = store key value s.memory })
  after_set key value
  say conn (line (codes "+OK"))
  more ← has_buffered
  if more then set_option key else pure tt

unfoldable pub get_reply : Option Bytes → Bytes
get_reply none = null_bulk
get_reply (some value) = bulk value

-- HandleGet. Only strings are stored in ServerMemory, so the assertion `.(string)` does not fail.
unfoldable pub handle_get : Conn → Handler (Unit {0})
handle_get conn = do
  require_auth conn
  key ← read_arg
  value ← gets (λ s. load key s.memory)
  say conn (get_reply value)
