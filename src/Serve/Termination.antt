-- ===== src/Serve/Termination.antt =====
-- serveCommands ends with its input, also when the connection is reset.
use make_your_own_redis_go.Shared.{
  ◌&◌, ℕ, zero, suc, ◌<◌, ◌≡◌, ◌≢◌, ◌⊎◌, refl, [], ◌∷◌, Option, none, some, Bytes, arith, inl, inr,
  Bool-cases, beq,
}
use make_your_own_redis_go.Shared.Dict.{Dict, load}
use make_your_own_redis_go.Reader.{Reader, ReadError, eof, broken, size, read_string}
use make_your_own_redis_go.Reader.Lines.{read_string-lt_size, none_end}
use make_your_own_redis_go.Geo.{Arithmetic}
use make_your_own_redis_go.Server.{Server, Conn, Library}
use make_your_own_redis_go.Server.Handler.{
  World, Handler, Outcome, ok, returned, panic, blocked, spun, read_line,
}
use make_your_own_redis_go.Server.Settles.{Settles, Settles-pure}
use make_your_own_redis_go.Commands.Geo.{Formats}
use make_your_own_redis_go.Serve.{
  handlers, run_found, run_line, continue_with, round, serve, serve_as, serve_commands,
}
use make_your_own_redis_go.Serve.Keyspace.{
  Settles-handle_ping, Settles-handle_echo, Settles-handle_set, Settles-handle_get,
  Settles-handle_acl, Settles-handle_auth, Settles-handle_rpush, Settles-handle_lrange,
  Settles-handle_lpush, Settles-handle_llen, Settles-handle_lpop, Settles-handle_blpop,
  Settles-handle_config_get, Settles-handle_keys, Settles-handle_info, Settles-handle_replconf,
  Settles-handle_psync_master, Settles-handle_wait,
}
use make_your_own_redis_go.Serve.SortedSets.{
  Settles-handle_zadd, Settles-handle_zrank, Settles-handle_zrange, Settles-handle_zcard,
  Settles-handle_zscore, Settles-handle_zrem, Settles-handle_geoadd, Settles-handle_geopos,
  Settles-handle_geodist, Settles-handle_geosearch,
}

error_cases : (e : Option ReadError) → (e ≡ none) ⊎ ((e ≡ some eof) ⊎ (e ≡ some broken))
error_cases none = inl refl
error_cases (some eof) = inr (inl refl)
error_cases (some broken) = inr (inr refl)

reset_end : {e : Option ReadError} → e ≡ some broken → e ≢ some eof
reset_end h k = cc

abbrev AllSettle : Dict (Handler (Unit {0})) → Type 0
AllSettle [] = Unit
AllSettle ((k, h) ∷ rest) = Settles h × AllSettle rest

module _ (lib : Library) (m : Arithmetic) (formats : Formats) (conn : Conn) where
  AllSettle-handlers : AllSettle (handlers lib m formats conn)
  unfolding handlers
  AllSettle-handlers =
      Settles-handle_ping conn
      & Settles-handle_echo conn
      & Settles-handle_set conn
      & Settles-handle_get conn
      & Settles-handle_acl lib conn
      & Settles-handle_auth lib conn
      & Settles-handle_rpush conn
      & Settles-handle_lrange conn
      & Settles-handle_lpush conn
      & Settles-handle_llen conn
      & Settles-handle_lpop conn
      & Settles-handle_blpop lib conn
      & Settles-handle_config_get conn
      & Settles-handle_keys conn
      & Settles-handle_info conn
      & Settles-handle_replconf conn
      & Settles-handle_psync_master conn
      & Settles-handle_wait conn
      & Settles-handle_zadd lib conn
      & Settles-handle_zrank conn
      & Settles-handle_zrange conn
      & Settles-handle_zcard conn
      & Settles-handle_zscore lib conn
      & Settles-handle_zrem conn
      & Settles-handle_geoadd lib m formats conn
      & Settles-handle_geopos lib m formats conn
      & Settles-handle_geodist lib m formats conn
      & Settles-handle_geosearch lib m formats conn
      & tt

  Settles-run_found :
      (k : Bytes) (d : Dict (Handler (Unit {0})))
      → AllSettle d
      → Settles (run_found lib m formats (load k d))
  unfolding run_found load
  Settles-run_found k [] h = Settles-pure tt
  Settles-run_found k ((j, x) ∷ d) (hx, hd) = elim (Bool-cases (beq j k)) [
    | inl e ↦ rw e hx
    | inr e ↦ rw e (Settles-run_found k d hd)
  ]

  -- Whatever the line, its handler comes to an outcome.
  pub Settles-run_line : (text : Bytes) → Settles (run_line lib m formats conn text)
  unfolding run_line
  Settles-run_line text = Settles-run_found _ _ AllSettle-handlers

  continue_with-ends :
      (r : Outcome (Unit {0}) × World) (next : World → Outcome (Unit {0}) × World)
      → r.0 ≢ spun
      → (next r.1).0 ≢ spun
      → (continue_with lib m formats r next).0 ≢ spun
  unfolding continue_with
  continue_with-ends (ok u, w) next h k = k
  continue_with-ends (returned, w) next h k = k
  continue_with-ends (panic e, w) next h k = cc
  continue_with-ends (blocked b, w) next h k = cc
  continue_with-ends (spun, w) next h k = absurd (h refl)

  serve-ends :
      (fuel : ℕ) (w : World) → size w.reader < fuel → (serve lib m formats fuel conn w).0 ≢ spun
  unfolding serve read_line round
  serve-ends zero w b = absurd (omega arith)
  serve-ends (suc fuel) w b = elim (error_cases (read_string w.reader).error) [
    | inl good ↦
        let w' = record w { reader = (read_string w.reader).rest } in
        let s = (Settles-run_line (read_string w.reader).text).at w' in
        rw (good, round)
          (continue_with-ends _ _ s.ends (
            serve-ends fuel (run_line lib m formats conn (read_string w.reader).text w').1
              (omega (arith, s.shrinks, read_string-lt_size w.reader (none_end good)))))
    | inr (inl ended) ↦ rw (ended, round) (cc)
    | inr (inr reset) ↦
        rw (reset, round)
          (serve-ends fuel (record w { reader = (read_string w.reader).rest })
            (omega (arith, read_string-lt_size w.reader (reset_end reset))))
  ]

  serve_as-ends :
      (r : Reader) (s : Server) (user : Option Bytes)
      → (serve_as lib m formats conn r s user).0 ≢ spun
  unfolding serve_as
  serve_as-ends r s none = cc
  serve_as-ends r s (some user) = serve-ends (suc (size r)) _ (omega arith)

  -- On every connection, whatever bytes it delivers and in whatever chunks, and whether its input just
  -- ends or a reset is reported before the end, the loop of serveCommands does not go on for ever: it
  -- returns, the process panics, or a handler is blocked. A round for each byte, chunk and reset is
  -- enough, and no handler has a loop that runs on.
  pub serve_commands-ends :
      (r : Reader) (s : Server) → (serve_commands lib m formats conn r s).0 ≢ spun
  unfolding serve_commands
  serve_commands-ends r s = serve_as-ends r s _
