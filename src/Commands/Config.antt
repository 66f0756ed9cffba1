-- ===== src/Commands/Config.antt =====
-- handlers.go: CONFIG GET, KEYS and INFO.
use make_your_own_redis_go.Shared.{
  List, [], ◌∷◌, ◌++◌, Option, none, some, Bytes, codes, beq, if◌then◌else◌, length,
}
use make_your_own_redis_go.Shared.Dict.{load, keys}
use make_your_own_redis_go.Text.{to_upper}
use make_your_own_redis_go.Resp.{bulk, bulks, array_header, line}
use make_your_own_redis_go.Server.{Conn}
use make_your_own_redis_go.Server.Handler.{
  Handler, ◌>>=◌, ◌>>◌, pure, stop, gets, read_arg, read_arg_logged, skip_line, say,
}
use make_your_own_redis_go.Commands.{require_auth, info_string}

-- An unknown variable has no reply.
unfoldable pub config_reply : Conn → Bytes → Option Bytes → Handler (Unit {0})
config_reply conn name none = stop
config_reply conn name (some value) = say conn (array_header 2 ++ (bulk name ++ bulk value))

-- HandleConfigGet
unfoldable pub handle_config_get : Conn → Handler (Unit {0})
handle_config_get conn = do
  require_auth conn
  skip_line
  skip_line
  name ← read_arg
  value ← gets (λ s. load name s.env)
  config_reply conn name value

-- HandleKeys
unfoldable pub handle_keys : Conn → Handler (Unit {0})
handle_keys conn = do
  require_auth conn
  glob ← read_arg_logged
  if beq glob (codes "*")
      then (do
        found ← gets (λ s. keys s.memory)
        say conn (array_header (length found) ++ bulks found))
      else say conn (line (codes "-ERR only * pattern is supported"))

unfoldable pub info_lines : List Bytes → Bytes
info_lines [] = []
info_lines (l ∷ ls) = l ++ (b'\n' ∷ info_lines ls)

-- The case "REPLICATION" of HandleInfo.
unfoldable pub info_replication : Conn → Handler (Unit {0})
info_replication conn = do
  role ← info_string (codes "role")
  if beq role (codes "master")
      then (do
        replid ← info_string (codes "master_replid")
        offset ← info_string (codes "master_repl_offset")
        say conn (
            bulk (
              info_lines (
                (codes "role:" ++ role)
                ∷ (codes "master_replid:" ++ replid)
                ∷ (codes "master_repl_offset:" ++ offset)
                ∷ []))))
      else say conn (bulk (codes "role:" ++ role))

-- HandleInfo
unfoldable pub handle_info : Conn → Handler (Unit {0})
handle_info conn = do
  require_auth conn
  arg ← read_arg
  if beq (to_upper arg) (codes "REPLICATION") then info_replication conn else pure tt
