-- ===== src/System.antt =====
-- The process as a whole: what its goroutines do to the state that they share, one action at a time and
-- in any order. A handler is one action up to its end or its wait; a wait in BLPOP or WAIT ends by an
-- action of its own. Not a step: a handler that goes on once it is given the lock of a sorted set.
pub mod Steady
pub mod Properties
use make_your_own_redis_go.Shared.{ℕ, ◌≡◌, true, List, ◌∷◌, ◌++◌, Bytes}
use make_your_own_redis_go.Shared.Int.{ℤ, leb_ℤ}
use make_your_own_redis_go.Shared.Dict.{remove}
use make_your_own_redis_go.Float.{Float64}
use make_your_own_redis_go.Reader.{Reader}
use make_your_own_redis_go.Geo.{Arithmetic}
use make_your_own_redis_go.Server.{Server, Conn, Timer, Library}
use make_your_own_redis_go.Server.Handler.{World, Handler}
use make_your_own_redis_go.Commands.Geo.{Formats}
use make_your_own_redis_go.Commands.Blocking.{blpop_receive, blpop_timeout}
use make_your_own_redis_go.Commands.Replication.{wait_round, wait_expired}
use make_your_own_redis_go.Serve.{run_line}

-- The goroutine of an expiry, once its context is done: whatever the key has by now is deleted.
unfoldable pub expire : Timer → Server → Server
expire timer s = record s { memory = remove timer.key s.memory }

-- A handler on a session with this server.
abbrev pub on : Reader → Bytes → Server → World
on r user s = record { reader = r; auth_user = user; server = s }

module _ (lib : Library) (m : Arithmetic) (formats : Formats) where
  -- The actions of a connection whose session and input are any.
  pub data Step (s t : Server) : Type 0 where
    runs :
        (conn : Conn) (text : Bytes) (r : Reader) (user : Bytes)
        → t ≡ (run_line lib m formats conn text (on r user s)).1.server
        → Step s t
    receives :
        (conn : Conn) (key : Bytes) (ch : ℕ) (timeout : Float64) (r : Reader) (user : Bytes)
        → t ≡ (blpop_receive conn key ch timeout (on r user s)).1.server
        → Step s t
    times_out :
        (conn : Conn) (key : Bytes) (ch : ℕ) (timeout : Float64) (r : Reader) (user : Bytes)
        → t ≡ (blpop_timeout conn key ch timeout (on r user s)).1.server
        → Step s t
    counts :
        (conn : Conn) (wanted timeout : ℤ) (r : Reader) (user : Bytes)
        → t ≡ (wait_round conn wanted timeout (on r user s)).1.server
        → Step s t
    gives_up :
        (conn : Conn) (wanted timeout : ℤ) (acked : ℕ) (r : Reader) (user : Bytes)
        → t ≡ (wait_expired conn wanted timeout acked (on r user s)).1.server
        → Step s t
    fires :
        (before : List Timer) (timer : Timer) (behind : List Timer)
        → s.timers ≡ before ++ timer ∷ behind
        → leb_ℤ timer.due s.now ≡ true
        → t ≡ record (expire timer s) { timers = before ++ behind }
        → Step s t
    passes : (later : ℤ) → leb_ℤ s.now later ≡ true → t ≡ record s { now = later } → Step s t
    breaks : (conn : Conn) → t ≡ record s { dead = conn.id ∷ s.dead } → Step s t

  pub data Reach (s : Server) : Server → Type 0 where
    here : Reach s s
    next : {t u : Server} → Reach s t → Step t u → Reach s u
