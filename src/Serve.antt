-- ===== src/Serve.antt =====
-- server.go: serveCommands, the loop of one connection.
pub mod Keyspace
pub mod SortedSets
pub mod Termination
pub mod OpenSets
pub mod Untouched
pub mod Others
pub mod SetCommands
pub mod Channels
pub mod Waiting
pub mod Indexed
pub mod Spelling
pub mod Rounds
pub mod Invariant
pub mod Access
use make_your_own_redis_go.Shared.{
  ℕ, zero, suc, ◌+◌, Bool, true, false, List, [], ◌∷◌, Option, none, some, Bytes, codes,
  if◌then◌else◌, ◌==◌, length,
}
use make_your_own_redis_go.Shared.Dict.{Dict, load}
use make_your_own_redis_go.Text.{trim_space, to_upper}
use make_your_own_redis_go.Reader.{Reader, ReadError, eof, broken, size}
use make_your_own_redis_go.Geo.{Arithmetic}
use make_your_own_redis_go.Server.{Server, Conn, User, Library}
use make_your_own_redis_go.Server.Handler.{
  Handler, World, Outcome, ok, returned, panic, blocked, spun, nil_assertion, pure, read_line,
}
use make_your_own_redis_go.Commands.Strings.{handle_ping, handle_echo, handle_set, handle_get}
use make_your_own_redis_go.Commands.Config.{handle_config_get, handle_keys, handle_info}
use make_your_own_redis_go.Commands.Acl.{handle_acl, handle_auth}
use make_your_own_redis_go.Commands.Lists.{
  handle_rpush, handle_lrange, handle_lpush, handle_llen, handle_lpop,
}
use make_your_own_redis_go.Commands.Blocking.{handle_blpop}
use make_your_own_redis_go.Commands.Replication.{handle_replconf, handle_psync_master, handle_wait}
use make_your_own_redis_go.Commands.ZSets.{
  handle_zadd, handle_zrank, handle_zrange, handle_zcard, handle_zscore, handle_zrem,
}
use make_your_own_redis_go.Commands.Geo.{
  Formats, handle_geoadd, handle_geopos, handle_geodist, handle_geosearch,
}

-- Who a new connection is, by the entry "default" of the registry; without one the assertion panics.
unfoldable pub initial_user : Option User → Option Bytes
initial_user none = none
initial_user (some u) = some (if length u.passwords == 0 then codes "default" else [])

module _ (lib : Library) (m : Arithmetic) (formats : Formats) where
  -- The cases of the switch.
  unfoldable pub handlers : Conn → Dict (Handler (Unit {0}))
  handlers conn =
      (codes "PING", handle_ping conn)
      ∷ (codes "ECHO", handle_echo conn)
      ∷ (codes "SET", handle_set conn)
      ∷ (codes "GET", handle_get conn)
      ∷ (codes "ACL", handle_acl lib conn)
      ∷ (codes "AUTH", handle_auth lib conn)
      ∷ (codes "RPUSH", handle_rpush conn)
      ∷ (codes "LRANGE", handle_lrange conn)
      ∷ (codes "LPUSH", handle_lpush conn)
      ∷ (codes "LLEN", handle_llen conn)
      ∷ (codes "LPOP", handle_lpop conn)
      ∷ (codes "BLPOP", handle_blpop lib conn)
      ∷ (codes "CONFIG", handle_config_get conn)
      ∷ (codes "KEYS", handle_keys conn)
      ∷ (codes "INFO", handle_info conn)
      ∷ (codes "REPLCONF", handle_replconf conn)
      ∷ (codes "PSYNC", handle_psync_master conn)
      ∷ (codes "WAIT", handle_wait conn)
      ∷ (codes "ZADD", handle_zadd lib conn)
      ∷ (codes "ZRANK", handle_zrank conn)
      ∷ (codes "ZRANGE", handle_zrange conn)
      ∷ (codes "ZCARD", handle_zcard conn)
      ∷ (codes "ZSCORE", handle_zscore lib conn)
      ∷ (codes "ZREM", handle_zrem conn)
      ∷ (codes "GEOADD", handle_geoadd lib m formats conn)
      ∷ (codes "GEOPOS", handle_geopos lib m formats conn)
      ∷ (codes "GEODIST", handle_geodist lib m formats conn)
      ∷ (codes "GEOSEARCH", handle_geosearch lib m formats conn)
      ∷ []

  unfoldable pub run_found : Option (Handler (Unit {0})) → Handler (Unit {0})
  run_found none = pure tt
  run_found (some handler) = handler

  -- The handler of a line; a line that is no command is passed over.
  unfoldable pub run_line : Conn → Bytes → Handler (Unit {0})
  run_line conn text = run_found (load (to_upper (trim_space text)) (handlers conn))

  -- Behind a handler the loop goes on, unless the process has ended or the handler is blocked.
  unfoldable pub continue_with :
      Outcome (Unit {0}) × World → (World → Outcome (Unit {0}) × World) → Outcome (Unit {0}) × World
  continue_with (ok u, w) next = next w
  continue_with (returned, w) next = next w
  continue_with (panic e, w) next = (panic e, w)
  continue_with (blocked b, w) next = (blocked b, w)
  continue_with (spun, w) next = (spun, w)

  -- One round: the line has been read, with its error. The end of the input ends the loop; behind any
  -- other error it goes on.
  unfoldable pub round :
      Conn
      → Outcome (Bytes × Option ReadError) × World
      → (World → Outcome (Unit {0}) × World)
      → Outcome (Unit {0}) × World
  round conn (ok (text, none), w) next = continue_with (run_line conn text w) next
  round conn (ok (text, some eof), w) next = (returned, w)
  round conn (ok (text, some broken), w) next = next w
  round conn (returned, w) next = (returned, w)
  round conn (panic e, w) next = (panic e, w)
  round conn (blocked b, w) next = (blocked b, w)
  round conn (spun, w) next = (spun, w)

  -- The loop of serveCommands, on fuel; `spun` when the fuel is used up.
  unfoldable pub serve : ℕ → Conn → World → Outcome (Unit {0}) × World
  serve zero conn w = (spun, w)
  serve (suc fuel) conn w = round conn (read_line w) (serve fuel conn)

  unfoldable pub serve_as : Conn → Reader → Server → Option Bytes → Outcome (Unit {0}) × World
  serve_as conn reader server none =
      (panic nil_assertion, record { reader = reader; auth_user = []; server = server })
  serve_as conn reader server (some user) =
      serve (suc (size reader)) conn (record { reader = reader; auth_user = user; server = server })

  -- serveCommands: who is authenticated at first, and the loop, with a round for each byte.
  unfoldable pub serve_commands : Conn → Reader → Server → Outcome (Unit {0}) × World
  serve_commands conn reader server =
      serve_as conn reader server (initial_user (load (codes "default") server.users))
