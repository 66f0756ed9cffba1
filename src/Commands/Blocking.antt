-- ===== src/Commands/Blocking.antt =====
-- handlers.go: BLPOP. Its handler runs up to the receive on its channel; what happens then is one of
-- two actions: a value arrives, or the timeout fires and the client takes itself out of the list.
pub mod Wakes
use make_your_own_redis_go.Shared.{
  ℕ, ◌+◌, List, [], ◌∷◌, ◌++◌, Option, none, some, Bytes, codes, ◌==◌, if◌then◌else◌,
}
use make_your_own_redis_go.Shared.Dict.{store, load_or}
use make_your_own_redis_go.Float.{Float64, float_eq, float_zero}
use make_your_own_redis_go.Resp.{bulk, array_header}
use make_your_own_redis_go.Server.{Server, Conn, LockableList, Library}
use make_your_own_redis_go.Server.Handler.{
  Handler, for_value, ◌>>=◌, ◌>>◌, block, gets, modify, read_arg, say,
}
use make_your_own_redis_go.Commands.{require_auth}
use make_your_own_redis_go.Commands.Lists.{new_list}

-- SendBLPOPSuccess
unfoldable pub blpop_success : Conn → Bytes → Bytes → Handler (Unit {0})
blpop_success conn key value = say conn (array_header 2 ++ (bulk key ++ bulk value))

unfoldable pub set_list : Bytes → LockableList → Handler (Unit {0})
set_list key l = modify (λ s. record s { lists = store key l s.lists })

-- make(chan string, 1) and its place in the queue of the list.
unfoldable pub enqueue_client : Bytes → LockableList → Server → Server
enqueue_client key l s = record s {
  lists = store key (record l { clients = l.clients ++ s.next_channel ∷ [] }) s.lists;
  next_channel = s.next_channel + 1;
}

unfoldable pub take_or_wait :
    Conn → Bytes → Float64 → LockableList → List Bytes → Handler (Unit {0})
take_or_wait conn key timeout l [] = do
  ch ← gets (λ s. s.next_channel)
  modify (enqueue_client key l)
  block (for_value key ch timeout)
take_or_wait conn key timeout l (e ∷ es) = do
  set_list key (record l { elements = es })
  blpop_success conn key e

-- HandleBLPop, up to the receive.
unfoldable pub handle_blpop : Library → Conn → Handler (Unit {0})
handle_blpop lib conn = do
  require_auth conn
  key ← read_arg
  timeout ← read_arg
  l ← gets (λ s. load_or key new_list s.lists)
  take_or_wait conn key (lib.parse_float timeout) l l.elements

-- The value in the buffer of a channel, and the buffers after the receive.
unfoldable pub received : ℕ → List (ℕ × Bytes) → Option Bytes
received ch [] = none
received ch ((c, e) ∷ sent) = if c == ch then some e else received ch sent

unfoldable pub drained : ℕ → List (ℕ × Bytes) → List (ℕ × Bytes)
drained ch [] = []
drained ch ((c, e) ∷ sent) = if c == ch then sent else (c, e) ∷ drained ch sent

unfoldable pub finish_receive : Conn → Bytes → ℕ → Float64 → Option Bytes → Handler (Unit {0})
finish_receive conn key ch timeout none = block (for_value key ch timeout)
finish_receive conn key ch timeout (some e) = do
  modify (λ s. record s { sent = drained ch s.sent })
  blpop_success conn key e

-- `case val := <-clientCh`
unfoldable pub blpop_receive : Conn → Bytes → ℕ → Float64 → Handler (Unit {0})
blpop_receive conn key ch timeout = do
  value ← gets (λ s. received ch s.sent)
  finish_receive conn key ch timeout value

unfoldable pub remove_client : ℕ → List ℕ → List ℕ
remove_client ch [] = []
remove_client ch (c ∷ cs) = if c == ch then cs else c ∷ remove_client ch cs

-- `case <-time.After(timeoutDuration)`, once the select has chosen it; a timeout of 0 never fires.
unfoldable pub blpop_timeout : Conn → Bytes → ℕ → Float64 → Handler (Unit {0})
blpop_timeout conn key ch timeout =
    if float_eq timeout float_zero then block (for_value key ch timeout) else do
      l ← gets (λ s. load_or key new_list s.lists)
      set_list key (record l { clients = remove_client ch l.clients })
      say conn (codes "*-1\r\n")
