-- ===== src/Server/AnyUser.antt =====
-- Handlers that do the same for every user of the session.
use make_your_own_redis_go.Shared.{
  ◌≡◌, refl, ap, ◌∙◌, Bool, true, false, Option, none, some, Bytes, if◌then◌else◌,
}
use make_your_own_redis_go.Reader.{ReadError}
use make_your_own_redis_go.Server.{Server, Conn}
use make_your_own_redis_go.Server.Handler.{
  World, Handler, Outcome, ok, returned, panic, blocked, spun, Fault, Wait, ◌>>=◌, pure, stop,
  fault, block, gets, modify, after, read_line, skip_line, checked, read_checked, read_arg,
  read_arg_logged, has_buffered, contains, transmit, write, say,
}

abbrev pub as_user : {A : Type 0} → Bytes → Outcome A × World → Outcome A × World
as_user u r = (r.0, record (r.1) { auth_user = u })

-- With another user the outcome, the reader and the server are the same.
pub record AnyUser {A : Type 0} (m : Handler A) : Type 0 where
  pub at : (w : World) (u : Bytes) → m (record w { auth_user = u }) ≡ as_user u (m w)

module _ {A : Type 0} where
  pub AnyUser-pure : (a : A) → AnyUser (pure a)
  AnyUser-pure a = record { at = λ w u. refl }

  pub AnyUser-stop : AnyUser (stop {A = A})
  AnyUser-stop = record { at = λ w u. refl }

  pub AnyUser-fault : (e : Fault) → AnyUser (fault {A = A} e)
  AnyUser-fault e = record { at = λ w u. refl }

  pub AnyUser-block : (b : Wait) → AnyUser (block {A = A} b)
  AnyUser-block b = record { at = λ w u. refl }

  pub AnyUser-gets : (f : Server → A) → AnyUser (gets f)
  AnyUser-gets f = record { at = λ w u. refl }

  pub AnyUser-if :
      (b : Bool) (m n : Handler A) → AnyUser m → AnyUser n → AnyUser (if b then m else n)
  AnyUser-if true m n km kn = km
  AnyUser-if false m n km kn = kn

pub AnyUser-modify : (f : Server → Server) → AnyUser (modify f)
AnyUser-modify f = record { at = λ w u. refl }

module _ {A B : Type 0} where
  AnyUser-after :
      (o : Outcome A) (w : World) (f : A → Handler B) (u : Bytes)
      → ((a : A) → AnyUser (f a))
      → after o (record w { auth_user = u }) f ≡ as_user u (after o w f)
  AnyUser-after (ok a) w f u k = (k a).at w u
  AnyUser-after returned w f u k = refl
  AnyUser-after (panic e) w f u k = refl
  AnyUser-after (blocked b) w f u k = refl
  AnyUser-after spun w f u k = refl

  pub AnyUser-bind :
      (m : Handler A) (f : A → Handler B)
      → AnyUser m
      → ((a : A) → AnyUser (f a))
      → AnyUser (m >>= f)
  AnyUser-bind m f km kf = record {
    at = λ w u.
        ap (λ (r : Outcome A × World). after r.0 r.1 f) (km.at w u)
        ∙ AnyUser-after (m w).0 (m w).1 f u kf;
  }

pub AnyUser-read_line : AnyUser read_line
unfolding read_line
AnyUser-read_line = record { at = λ w u. refl }

pub ruleset user_rules = (
  AnyUser-pure, AnyUser-stop, AnyUser-fault, AnyUser-block, AnyUser-gets, AnyUser-if,
  AnyUser-modify, AnyUser-bind, AnyUser-read_line,
)

pub AnyUser-skip_line : AnyUser skip_line
unfolding skip_line
AnyUser-skip_line = search user_rules

AnyUser-checked : (text : Bytes) (error : Option ReadError) → AnyUser (checked text error)
unfolding checked
AnyUser-checked text none = search user_rules
AnyUser-checked text (some e) = search user_rules

pub AnyUser-read_checked : AnyUser read_checked
unfolding read_checked
AnyUser-read_checked = search (user_rules, AnyUser-checked)

pub AnyUser-read_arg : AnyUser read_arg
unfolding read_arg
AnyUser-read_arg = search (user_rules, AnyUser-skip_line, AnyUser-read_checked)

pub AnyUser-read_arg_logged : AnyUser read_arg_logged
unfolding read_arg_logged
AnyUser-read_arg_logged = search (user_rules, AnyUser-skip_line)

pub AnyUser-has_buffered : AnyUser has_buffered
unfolding has_buffered
AnyUser-has_buffered = record { at = λ w u. refl }

transmitted :
    (dead : Bool) (conn : Conn) (bytes : Bytes) (w : World) (u : Bytes)
    → transmit dead conn bytes (record w { auth_user = u }) ≡ as_user u (transmit dead conn bytes w)
unfolding transmit
transmitted true conn bytes w u = refl
transmitted false conn bytes w u = refl

either :
    (b : Bool) (x y x' y' : Outcome Bool × World) (u : Bytes)
    → x' ≡ as_user u x
    → y' ≡ as_user u y
    → (if b then x' else y') ≡ as_user u (if b then x else y)
either true x y x' y' u hx hy = hx
either false x y x' y' u hx hy = hy

pub AnyUser-write : (conn : Conn) (bytes : Bytes) → AnyUser (write conn bytes)
unfolding write
AnyUser-write conn bytes = record {
  at = λ w u.
      either conn.silent _ _ _ _ u refl
        (transmitted (contains w.server.dead conn.id) conn bytes w u);
}

pub AnyUser-say : (conn : Conn) (bytes : Bytes) → AnyUser (say conn bytes)
unfolding say
AnyUser-say conn bytes = search (user_rules, AnyUser-write)

pub ruleset any_user_rules = (
  user_rules, AnyUser-skip_line, AnyUser-read_checked, AnyUser-read_arg, AnyUser-read_arg_logged,
  AnyUser-has_buffered, AnyUser-write, AnyUser-say,
)
