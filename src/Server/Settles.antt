-- ===== src/Server/Settles.antt =====
-- Handlers come to an outcome: no loop runs out of its rounds, and the reader is only used up.
use make_your_own_redis_go.Shared.{
  ℕ, ◌≤◌, ◌≢◌, refl, Bool, true, false, Option, none, some, Bytes, arith, if◌then◌else◌,
}
use make_your_own_redis_go.Reader.{ReadError, size}
use make_your_own_redis_go.Reader.Lines.{read_string-size}
use make_your_own_redis_go.Server.{Server, Conn}
use make_your_own_redis_go.Server.Handler.{
  World, Handler, Outcome, ok, returned, panic, blocked, spun, Fault, Wait, ◌>>=◌, pure, stop,
  fault, block, gets, modify, after, session_user, read_line, skip_line, checked, read_checked,
  read_arg, read_arg_logged, has_buffered, transmit, write, say,
}

-- The outcome is not `spun`, and the reader has not grown.
pub record Settled {A : Type 0} (w : World) (r : Outcome A × World) : Type 0 where
  pub ends : r.0 ≢ spun
  pub shrinks : size (r.1.reader) ≤ size w.reader

pub record Settles {A : Type 0} (m : Handler A) : Type 0 where
  pub at : (w : World) → Settled w (m w)

module _ {A : Type 0} where
  pub Settles-pure : (a : A) → Settles (pure a)
  Settles-pure a = record { at = λ w. ground arith }

  pub Settles-stop : Settles (stop {A = A})
  Settles-stop = record { at = λ w. ground arith }

  pub Settles-fault : (e : Fault) → Settles (fault {A = A} e)
  Settles-fault e = record { at = λ w. ground arith }

  pub Settles-block : (b : Wait) → Settles (block {A = A} b)
  Settles-block b = record { at = λ w. ground arith }

  pub Settles-gets : (f : Server → A) → Settles (gets f)
  Settles-gets f = record { at = λ w. ground arith }

  pub Settles-if :
      (b : Bool) (m n : Handler A) → Settles m → Settles n → Settles (if b then m else n)
  Settles-if true m n km kn = km
  Settles-if false m n km kn = kn

pub Settles-modify : (f : Server → Server) → Settles (modify f)
Settles-modify f = record { at = λ w. ground arith }

pub Settles-session_user : Settles session_user
Settles-session_user = record { at = λ w. ground arith }

module _ {A B : Type 0} where
  -- A bind settles if the rest does at the state that the first action leaves.
  pub Settled-after :
      (v : World) (o : Outcome A) (w : World) (f : A → Handler B)
      → Settled v (o, w)
      → ((a : A) → Settled w (f a w))
      → Settled v (after o w f)
  Settled-after v (ok a) w f h k =
      let s = k a in record { ends = s.ends; shrinks = omega (arith, s.shrinks, h.shrinks) }
  Settled-after v returned w f h k = record { ends = cc; shrinks = h.shrinks }
  Settled-after v (panic e) w f h k = record { ends = cc; shrinks = h.shrinks }
  Settled-after v (blocked b) w f h k = record { ends = cc; shrinks = h.shrinks }
  Settled-after v spun w f h k = absurd (h.ends refl)

  pub shrinks-after :
      (n : ℕ) (o : Outcome A) (w : World) (f : A → Handler B)
      → size w.reader ≤ n
      → ((a : A) → Settles (f a))
      → size (after o w f).1.reader ≤ n
  shrinks-after n (ok a) w f h k = omega (arith, ((k a).at w).shrinks)
  shrinks-after n returned w f h k = h
  shrinks-after n (panic e) w f h k = h
  shrinks-after n (blocked b) w f h k = h
  shrinks-after n spun w f h k = h

  pub Settles-bind :
      (m : Handler A) (f : A → Handler B)
      → Settles m
      → ((a : A) → Settles (f a))
      → Settles (m >>= f)
  Settles-bind m f km kf = record {
    at = λ w. Settled-after w (m w).0 (m w).1 f (km.at w) (λ a. (kf a).at (m w).1);
  }

pub Settles-read_line : Settles read_line
unfolding read_line
Settles-read_line = record { at = λ w. record { ends = cc; shrinks = read_string-size w.reader } }

pub ruleset basic_rules = (
  Settles-pure, Settles-stop, Settles-fault, Settles-block, Settles-gets, Settles-if,
  Settles-modify, Settles-session_user, Settles-bind, Settles-read_line,
)

pub Settles-skip_line : Settles skip_line
unfolding skip_line
Settles-skip_line = search basic_rules

Settles-checked : (text : Bytes) (error : Option ReadError) → Settles (checked text error)
unfolding checked
Settles-checked text none = Settles-pure text
Settles-checked text (some e) = Settles-stop

pub Settles-read_checked : Settles read_checked
unfolding read_checked
Settles-read_checked = search (basic_rules, Settles-checked)

pub Settles-read_arg : Settles read_arg
unfolding read_arg
Settles-read_arg = search (basic_rules, Settles-skip_line, Settles-read_checked)

pub Settles-read_arg_logged : Settles read_arg_logged
unfolding read_arg_logged
Settles-read_arg_logged = search (basic_rules, Settles-skip_line)

pub Settles-has_buffered : Settles has_buffered
unfolding has_buffered
Settles-has_buffered = record { at = λ w. ground arith }

pub Settles-write : (conn : Conn) (bytes : Bytes) → Settles (write conn bytes)
unfolding write transmit
Settles-write conn bytes = record { at = λ w. ground arith }

pub Settles-say : (conn : Conn) (bytes : Bytes) → Settles (say conn bytes)
unfolding say
Settles-say conn bytes = search (basic_rules, Settles-write)

pub ruleset settles_rules = (
  basic_rules, Settles-skip_line, Settles-read_checked, Settles-read_arg, Settles-read_arg_logged,
  Settles-has_buffered, Settles-write, Settles-say,
)
