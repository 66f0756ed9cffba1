-- ===== src/Serve/Rounds.antt =====
-- The loop of a connection keeps what each of its rounds keeps.
use make_your_own_redis_go.Shared.{ℕ, zero, suc, Option, none, some, Bytes}
use make_your_own_redis_go.Reader.{ReadError, eof, broken}
use make_your_own_redis_go.Geo.{Arithmetic}
use make_your_own_redis_go.Server.{Conn, Library}
use make_your_own_redis_go.Server.Handler.{
  World, Outcome, ok, returned, panic, blocked, spun, read_line,
}
use make_your_own_redis_go.Server.Keeps.{Keeps}
use make_your_own_redis_go.Commands.Geo.{Formats}
use make_your_own_redis_go.Serve.{run_line, continue_with, round, serve}

module _ (lib : Library) (m : Arithmetic) (formats : Formats) (conn : Conn) (P : World → Type 0)
    (reads : Keeps P read_line)
    (lines : (text : Bytes) → Keeps P (run_line lib m formats conn text)) where
  kept-continue_with :
      (r : Outcome (Unit {0}) × World) (next : World → Outcome (Unit {0}) × World)
      → P r.1
      → ((w : World) → P w → P (next w).1)
      → P (continue_with lib m formats r next).1
  unfolding continue_with
  kept-continue_with (ok u, w) next h k = k w h
  kept-continue_with (returned, w) next h k = k w h
  kept-continue_with (panic e, w) next h k = h
  kept-continue_with (blocked b, w) next h k = h
  kept-continue_with (spun, w) next h k = h

  kept-round :
      (r : Outcome (Bytes × Option ReadError) × World) (next : World → Outcome (Unit {0}) × World)
      → P r.1
      → ((w : World) → P w → P (next w).1)
      → P (round lib m formats conn r next).1
  unfolding round
  kept-round (ok (text, none), w) next h k =
      kept-continue_with (run_line lib m formats conn text w) next ((lines text).at w h) k
  kept-round (ok (text, some eof), w) next h k = h
  kept-round (ok (text, some broken), w) next h k = k w h
  kept-round (returned, w) next h k = h
  kept-round (panic e, w) next h k = h
  kept-round (blocked b, w) next h k = h
  kept-round (spun, w) next h k = h

  -- What each line keeps, and reading it, the loop keeps.
  pub kept-serve : (fuel : ℕ) (w : World) → P w → P (serve lib m formats fuel conn w).1
  unfolding serve
  kept-serve zero w h = h
  kept-serve (suc fuel) w h =
      kept-round (read_line w) (serve lib m formats fuel conn) (reads.at w h) (kept-serve fuel)
