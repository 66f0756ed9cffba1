-- ===== src/Server/Handler.antt =====
-- The handlers as actions on a connection's session and the server. `return` ends a handler early, a
-- failed type assertion or index ends the process, and a handler may block.
use make_your_own_redis_go.Shared.{
  ℕ, Bool, true, false, ◌||◌, List, [], ◌∷◌, ◌++◌, Option, none, some, Bytes, ◌==◌, if◌then◌else◌,
  length, ltb,
}
use make_your_own_redis_go.Shared.Int.{ℤ}
use make_your_own_redis_go.Float.{Float64}
use make_your_own_redis_go.Reader.{Reader, ReadError, read_string}
use make_your_own_redis_go.Text.{trim_space}
use make_your_own_redis_go.Server.{Server, Conn}

-- The panics that the code can run into.
pub data Fault : Type 0 where
  nil_assertion index_out_of_range slice_out_of_range make_slice : Fault

-- What a blocked handler waits for: the lock of a sorted set, a value on a channel (with the key and
-- the timeout of BLPOP), or acknowledgements (with the number and the timeout of WAIT).
pub data Wait : Type 0 where
  for_lock : Bytes → Wait
  for_value : Bytes → ℕ → Float64 → Wait
  for_acks : ℤ → ℤ → Wait

-- `spun` is a loop that ran out of the rounds given to it.
pub data Outcome (A : Type 0) : Type 0 where
  ok : A → Outcome A
  returned : Outcome A
  panic : Fault → Outcome A
  blocked : Wait → Outcome A
  spun : Outcome A

pub record World : Type 0 where
  pub reader : Reader
  pub auth_user : Bytes
  pub server : Server

abbrev pub Handler : Type 0 → Type 0
Handler A = World → Outcome A × World

abbrev pub after : {A B : Type 0} → Outcome A → World → (A → Handler B) → Outcome B × World
after (ok a) w f = f a w
after returned w f = (returned, w)
after (panic e) w f = (panic e, w)
after (blocked b) w f = (blocked b, w)
after spun w f = (spun, w)

infixl 5 ◌>>=◌ ◌>>◌
abbrev pub ◌>>=◌ : {A B : Type 0} → Handler A → (A → Handler B) → Handler B
◌>>=◌ m f w = after (m w).0 (m w).1 f

abbrev pub ◌>>◌ : {B : Type 0} → Handler (Unit {0}) → Handler B → Handler B
m >> k = m >>= λ _. k

abbrev pub pure : {A : Type 0} → A → Handler A
pure a w = (ok a, w)

-- `return` in a handler.
abbrev pub stop : {A : Type 0} → Handler A
stop w = (returned, w)

abbrev pub fault : {A : Type 0} → Fault → Handler A
fault e w = (panic e, w)

abbrev pub block : {A : Type 0} → Wait → Handler A
block b w = (blocked b, w)

abbrev pub gets : {A : Type 0} → (Server → A) → Handler A
gets f w = (ok (f w.server), w)

abbrev pub modify : (Server → Server) → Handler (Unit {0})
modify f w = (ok tt, record w { server = f w.server })

abbrev pub session_user : Handler Bytes
session_user w = (ok w.auth_user, w)

-- reader.ReadString('\n'), with its error.
unfoldable pub read_line : Handler (Bytes × Option ReadError)
read_line w =
    let line = read_string w.reader in (ok (line.text, line.error), record w { reader = line.rest })

-- `_, _ = reader.ReadString('\n')`
unfoldable pub skip_line : Handler (Unit {0})
skip_line = do l ← read_line; pure tt

-- `if err != nil { log; return }`
unfoldable pub checked : Bytes → Option ReadError → Handler Bytes
checked text none = pure text
checked text (some e) = stop

-- A ReadString whose error ends the handler.
unfoldable pub read_checked : Handler Bytes
read_checked = do (text, error) ← read_line; checked text error

-- The two reads of one argument, the length line and the text, with the error check of the second.
unfoldable pub read_arg : Handler Bytes
read_arg = do skip_line; text ← read_checked; pure (trim_space text)

-- The same where the error is only logged.
unfoldable pub read_arg_logged : Handler Bytes
read_arg_logged = do skip_line; (text, error) ← read_line; pure (trim_space text)

-- reader.Buffered() > 0
unfoldable pub has_buffered : Handler Bool
has_buffered w = (ok (ltb 0 (length w.reader.buffered)), w)

unfoldable pub contains : List ℕ → ℕ → Bool
contains [] n = false
contains (m ∷ ms) n = m == n || contains ms n

-- The write on a connection that is dead or not.
unfoldable pub transmit : Bool → Conn → Bytes → Handler Bool
transmit true conn bytes w = (ok false, w)
transmit false conn bytes w = (
  ok true,
  record w { server = record (w.server) { output = w.server.output ++ (conn.id, bytes) ∷ [] } },
)

-- conn.Write: whether it succeeded. A SilentConn reports success and sends nothing.
unfoldable pub write : Conn → Bytes → Handler Bool
write conn bytes w =
    if conn.silent then (ok true, w) else transmit (contains w.server.dead conn.id) conn bytes w

-- A write whose error is only logged.
unfoldable pub say : Conn → Bytes → Handler (Unit {0})
say conn bytes = do done ← write conn bytes; pure tt
