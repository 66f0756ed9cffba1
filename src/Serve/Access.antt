-- ===== src/Serve/Access.antt =====
-- Which commands ask for an authenticated client, seen from the switch of serveCommands.
use make_your_own_redis_go.Shared.{◌&◌, ◌≡◌, refl, beq, false, List, [], ◌∷◌, Bytes, codes}
use make_your_own_redis_go.Shared.Dict.{load}
use make_your_own_redis_go.Text.{trim_space, to_upper}
use make_your_own_redis_go.Resp.{line}
use make_your_own_redis_go.Geo.{Arithmetic}
use make_your_own_redis_go.Server.{Conn, Library}
use make_your_own_redis_go.Server.Handler.{World, Outcome, returned}
use make_your_own_redis_go.Server.AnyUser.{AnyUser}
use make_your_own_redis_go.Server.Output.{arrives, with_output, say-with_output}
use make_your_own_redis_go.Commands.{check_auth, require_auth}
use make_your_own_redis_go.Commands.Strings.{handle_ping, handle_echo, handle_set, handle_get}
use make_your_own_redis_go.Commands.Config.{handle_config_get, handle_keys, handle_info}
use make_your_own_redis_go.Commands.Acl.{handle_acl}
use make_your_own_redis_go.Commands.Lists.{
  handle_rpush, handle_lrange, handle_lpush, handle_llen, handle_lpop,
}
use make_your_own_redis_go.Commands.Blocking.{handle_blpop}
use make_your_own_redis_go.Commands.Geo.{Formats}
use make_your_own_redis_go.Serve.{handlers, run_found, run_line}
use make_your_own_redis_go.Serve.OpenSets.{
  AnyUser-handle_zadd, AnyUser-handle_zrank, AnyUser-handle_zrange, AnyUser-handle_zcard,
  AnyUser-handle_zscore, AnyUser-handle_zrem, AnyUser-handle_geoadd, AnyUser-handle_geopos,
  AnyUser-handle_geodist, AnyUser-handle_geosearch,
}

-- The commands whose handlers begin with the check.
abbrev pub guarded : List Bytes
guarded =
    codes "PING"
    ∷ codes "ECHO"
    ∷ codes "SET"
    ∷ codes "GET"
    ∷ codes "ACL"
    ∷ codes "RPUSH"
    ∷ codes "LRANGE"
    ∷ codes "LPUSH"
    ∷ codes "LLEN"
    ∷ codes "LPOP"
    ∷ codes "BLPOP"
    ∷ codes "CONFIG"
    ∷ codes "KEYS"
    ∷ codes "INFO"
    ∷ []

-- The commands of the sorted sets and of the locations.
abbrev pub unguarded : List Bytes
unguarded =
    codes "ZADD"
    ∷ codes "ZRANK"
    ∷ codes "ZRANGE"
    ∷ codes "ZCARD"
    ∷ codes "ZSCORE"
    ∷ codes "ZREM"
    ∷ codes "GEOADD"
    ∷ codes "GEOPOS"
    ∷ codes "GEODIST"
    ∷ codes "GEOSEARCH"
    ∷ []

abbrev pub Each : List Bytes → (Bytes → Type 0) → Type 0
Each [] P = Unit
Each (c ∷ cs) P = P c × Each cs P

-- The error reply is written, and nothing else has changed.
abbrev pub denied : Conn → World → Outcome (Unit {0}) × World
denied conn w =
    let reply = line (codes "-NOAUTH Authentication required.") in
    (returned, with_output (arrives conn w.server reply) w)

module _ (conn : Conn) (w : World) (nobody : check_auth w.auth_user ≡ false) where
  -- The check ends the handler behind the error reply.
  require_auth-refuses : require_auth conn w ≡ denied conn w
  unfolding require_auth
  require_auth-refuses = rw (nobody, say-with_output conn _ w)

  module _ (lib : Library) (m : Arithmetic) (formats : Formats) where
    -- A client that is not authenticated gets the error NOAUTH from each of the guarded commands, in
    -- whatever state the server is: the command reads none of its arguments and changes nothing.
    pub guarded_refuse : Each guarded (λ name. run_line lib m formats conn name w ≡ denied conn w)
    unfolding run_line run_found handlers load beq trim_space to_upper handle_ping handle_echo
        handle_set handle_get handle_acl handle_rpush handle_lrange handle_lpush handle_llen
        handle_lpop handle_blpop handle_config_get handle_keys handle_info
    guarded_refuse = rw require_auth-refuses (
        refl & refl & refl & refl & refl & refl & refl & refl & refl & refl & refl & refl & refl
        & refl & tt)

module _ (conn : Conn) (lib : Library) (m : Arithmetic) (formats : Formats) where
  -- The commands of the sorted sets and of the locations do the same for every user of the session,
  -- a client that is not authenticated included: outcome, input, output and server do not depend on it.
  pub unguarded_serve_anyone : Each unguarded (λ name. AnyUser (run_line lib m formats conn name))
  unfolding run_line run_found handlers load beq trim_space to_upper
  unguarded_serve_anyone =
      AnyUser-handle_zadd lib conn
      & AnyUser-handle_zrank conn
      & AnyUser-handle_zrange conn
      & AnyUser-handle_zcard conn
      & AnyUser-handle_zscore lib conn
      & AnyUser-handle_zrem conn
      & AnyUser-handle_geoadd lib m formats conn
      & AnyUser-handle_geopos lib m formats conn
      & AnyUser-handle_geodist lib m formats conn
      & AnyUser-handle_geosearch lib m formats conn
      & tt
