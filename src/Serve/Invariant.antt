-- ===== src/Serve/Invariant.antt =====
-- The invariant of the sorted sets in the loop of a connection.
use make_your_own_redis_go.Shared.{
  ◌&◌, Bool-cases, inl, inr, beq, [], ◌∷◌, Option, none, some, Bytes,
}
use make_your_own_redis_go.Shared.Dict.{Dict, load}
use make_your_own_redis_go.Reader.{Reader}
use make_your_own_redis_go.Geo.{Arithmetic}
use make_your_own_redis_go.Server.{Server, Conn, Library}
use make_your_own_redis_go.Server.Handler.{World, Handler}
use make_your_own_redis_go.Server.Keeps.{Keeps, Keeps-pure}
use make_your_own_redis_go.Commands.Frame.{IsQuiet, Keeps-read_line}
use make_your_own_redis_go.Commands.Geo.{Formats}
use make_your_own_redis_go.Serve.{handlers, run_found, run_line, serve_as, serve_commands}
use make_your_own_redis_go.Serve.Rounds.{kept-serve}
use make_your_own_redis_go.Serve.Untouched
use make_your_own_redis_go.Serve.Others
use make_your_own_redis_go.Serve.Indexed.{
  AllIndexed, Holds, Holds-IsQuiet, Holds-IsBlind, Keeps-handle_zadd, Keeps-handle_zrank,
  Keeps-handle_zrange, Keeps-handle_zcard, Keeps-handle_zscore, Keeps-handle_zrem,
  Keeps-handle_geoadd, Keeps-handle_geopos, Keeps-handle_geodist, Keeps-handle_geosearch,
}

abbrev pub AllKeep : (World → Type 0) → Dict (Handler (Unit {0})) → Type 0
AllKeep P [] = Unit
AllKeep P ((k, h) ∷ rest) = Keeps P h × AllKeep P rest

module _ (lib : Library) (m : Arithmetic) (formats : Formats) (conn : Conn) where
  pub AllKeep-handlers : AllKeep Holds (handlers lib m formats conn)
  unfolding handlers
  AllKeep-handlers =
      Others.Keeps-handle_ping Holds Holds-IsQuiet Holds-IsBlind conn
      & Others.Keeps-handle_echo Holds Holds-IsQuiet Holds-IsBlind conn
      & Others.Keeps-handle_set Holds Holds-IsQuiet Holds-IsBlind conn
      & Others.Keeps-handle_get Holds Holds-IsQuiet Holds-IsBlind conn
      & Others.Keeps-handle_acl Holds Holds-IsQuiet Holds-IsBlind lib conn
      & Others.Keeps-handle_auth Holds Holds-IsQuiet Holds-IsBlind lib conn
      & Untouched.Keeps-handle_rpush AllIndexed conn
      & Untouched.Keeps-handle_lrange AllIndexed conn
      & Untouched.Keeps-handle_lpush AllIndexed conn
      & Untouched.Keeps-handle_llen AllIndexed conn
      & Untouched.Keeps-handle_lpop AllIndexed conn
      & Untouched.Keeps-handle_blpop AllIndexed lib conn
      & Others.Keeps-handle_config_get Holds Holds-IsQuiet Holds-IsBlind conn
      & Others.Keeps-handle_keys Holds Holds-IsQuiet Holds-IsBlind conn
      & Others.Keeps-handle_info Holds Holds-IsQuiet Holds-IsBlind conn
      & Others.Keeps-handle_replconf Holds Holds-IsQuiet Holds-IsBlind conn
      & Others.Keeps-handle_psync_master Holds Holds-IsQuiet Holds-IsBlind conn
      & Others.Keeps-handle_wait Holds Holds-IsQuiet Holds-IsBlind conn
      & Keeps-handle_zadd lib conn
      & Keeps-handle_zrank conn
      & Keeps-handle_zrange conn
      & Keeps-handle_zcard conn
      & Keeps-handle_zscore lib conn
      & Keeps-handle_zrem conn
      & Keeps-handle_geoadd lib m formats conn
      & Keeps-handle_geopos lib m formats conn
      & Keeps-handle_geodist lib m formats conn
      & Keeps-handle_geosearch lib m formats conn
      & tt

  module _ (P : World → Type 0) (quiet : IsQuiet P)
      (all : AllKeep P (handlers lib m formats conn)) where
    Keeps-run_found :
        (k : Bytes) (d : Dict (Handler (Unit {0})))
        → AllKeep P d
        → Keeps P (run_found lib m formats (load k d))
    unfolding run_found load
    Keeps-run_found k [] h = Keeps-pure tt
    Keeps-run_found k ((j, x) ∷ d) (hx, hd) = elim (Bool-cases (beq j k)) [
      | inl e ↦ rw e hx
      | inr e ↦ rw e (Keeps-run_found k d hd)
    ]

    pub Keeps-run_line : (text : Bytes) → Keeps P (run_line lib m formats conn text)
    unfolding run_line
    Keeps-run_line text = Keeps-run_found _ _ all

  AllIndexed-serve_as :
      (r : Reader) (s : Server) (user : Option Bytes)
      → AllIndexed s.zsets
      → AllIndexed (serve_as lib m formats conn r s user).1.server.zsets
  unfolding serve_as
  AllIndexed-serve_as r s none h = h
  AllIndexed-serve_as r s (some user) h =
      kept-serve lib m formats conn Holds (Keeps-read_line Holds Holds-IsQuiet)
        (Keeps-run_line Holds Holds-IsQuiet AllKeep-handlers) _ _ h

  -- Whatever bytes a connection delivers: if every sorted set of the server lists each entry of its map
  -- once, with its score, then so it is in the state in which serveCommands returns, panics or waits.
  pub serve_commands-AllIndexed :
      (r : Reader) (s : Server)
      → AllIndexed s.zsets
      → AllIndexed (serve_commands lib m formats conn r s).1.server.zsets
  unfolding serve_commands
  serve_commands-AllIndexed r s h = AllIndexed-serve_as r s _ h
