-- ===== src/System/Steady.antt =====
-- What every handler and every end of a wait keeps holds in every state that the process comes to.
use make_your_own_redis_go.Shared.{ℕ, sym, subst, List, [], ◌++◌, ◌∷◌, Bytes}
use make_your_own_redis_go.Shared.Int.{ℤ}
use make_your_own_redis_go.Shared.Dict.{remove}
use make_your_own_redis_go.Float.{Float64}
use make_your_own_redis_go.Reader.{Reader, eof}
use make_your_own_redis_go.Geo.{Arithmetic}
use make_your_own_redis_go.Server.{Server, Conn, Library}
use make_your_own_redis_go.Server.Handler.{World}
use make_your_own_redis_go.Server.Keeps.{Keeps}
use make_your_own_redis_go.Commands.Frame.{IsQuiet, quiet_rules}
use make_your_own_redis_go.Commands.Geo.{Formats}
use make_your_own_redis_go.Commands.Blocking.{blpop_receive, blpop_timeout}
use make_your_own_redis_go.Commands.Replication.{wait_expired}
use make_your_own_redis_go.Serve.{handlers}
use make_your_own_redis_go.Serve.Others.{IsBlind, Keeps-wait_round}
use make_your_own_redis_go.Serve.Invariant.{AllKeep, Keeps-run_line}
use make_your_own_redis_go.System.{on, expire, Step, Reach}

-- A property of the server, as one of a session.
abbrev pub On : (Server → Type 0) → World → Type 0
On P w = P w.server

Keeps-wait_expired :
    (P : World → Type 0) (quiet : IsQuiet P) (conn : Conn) (wanted timeout : ℤ) (acked : ℕ)
    → Keeps P (wait_expired conn wanted timeout acked)
unfolding wait_expired
Keeps-wait_expired P quiet conn wanted timeout acked = search quiet_rules

abbrev idle : Reader
idle = record { buffered = []; pending = []; failure = eof }

module _ (lib : Library) (m : Arithmetic) (formats : Formats) where
  pub record IsSteady (P : Server → Type 0) : Type 0 where
    pub quiet : IsQuiet (On P)
    pub blind : IsBlind (On P)
    pub commands : (conn : Conn) → AllKeep (On P) (handlers lib m formats conn)
    pub receive :
        (conn : Conn) (key : Bytes) (ch : ℕ) (t : Float64)
        → Keeps (On P) (blpop_receive conn key ch t)
    pub timeout :
        (conn : Conn) (key : Bytes) (ch : ℕ) (t : Float64)
        → Keeps (On P) (blpop_timeout conn key ch t)
    pub clock : (s : Server) (now : ℤ) → P s → P (record s { now = now })
    pub deaths : (s : Server) (dead : List ℕ) → P s → P (record s { dead = dead })

  module _ (P : Server → Type 0) (steady : IsSteady P) where
    Step-keeps : (s t : Server) → Step lib m formats s t → P s → P t
    unfolding expire
    Step-keeps s t (Step.runs conn text r user e) h = subst P (sym e) (
        (Keeps-run_line lib m formats conn (On P) steady.quiet (steady.commands conn) text).at
          (on r user s) h)
    Step-keeps s t (Step.receives conn key ch timeout r user e) h =
        subst P (sym e) ((steady.receive conn key ch timeout).at (on r user s) h)
    Step-keeps s t (Step.times_out conn key ch timeout r user e) h =
        subst P (sym e) ((steady.timeout conn key ch timeout).at (on r user s) h)
    Step-keeps s t (Step.counts conn wanted timeout r user e) h =
        subst P (sym e) (
          (Keeps-wait_round (On P) steady.quiet steady.blind conn wanted timeout).at (on r user s)
            h)
    Step-keeps s t (Step.gives_up conn wanted timeout acked r user e) h =
        subst P (sym e)
          ((Keeps-wait_expired (On P) steady.quiet conn wanted timeout acked).at (on r user s) h)
    Step-keeps s t (Step.fires before timer behind in_list due e) h =
        let w = on idle [] s in
        subst P (sym e) (
          steady.quiet.clocks (record w { server = expire timer s }) (before ++ behind)
            (steady.blind.memories w (remove timer.key s.memory) h))
    Step-keeps s t (Step.passes later le e) h = subst P (sym e) (steady.clock s later h)
    Step-keeps s t (Step.breaks conn e) h = subst P (sym e) (steady.deaths s (conn.id ∷ s.dead) h)

    pub Reach-keeps : {s t : Server} → Reach lib m formats s t → P s → P t
    Reach-keeps Reach.here h = h
    Reach-keeps (Reach.next {t} {u} r step) h = Step-keeps t u step (Reach-keeps r h)
