-- ===== src/Server/Keeps.antt =====
-- Invariants of handlers, whatever their outcome, one rule for each way to build a handler.
use make_your_own_redis_go.Shared.{Bool, true, false, if◌then◌else◌}
use make_your_own_redis_go.Server.{Server}
use make_your_own_redis_go.Server.Handler.{
  World, Handler, Outcome, ok, returned, panic, blocked, spun, Fault, Wait, ◌>>=◌, pure, stop,
  fault, block, gets, after,
}

pub record Keeps (P : World → Type 0) {A : Type 0} (m : Handler A) : Type 0 where
  pub at : (w : World) → P w → P (m w).1

module _ {P : World → Type 0} {A : Type 0} where
  pub Keeps-pure : (a : A) → Keeps P (pure a)
  Keeps-pure a = record { at = λ w h. h }

  pub Keeps-stop : Keeps P (stop {A = A})
  Keeps-stop = record { at = λ w h. h }

  pub Keeps-fault : (e : Fault) → Keeps P (fault {A = A} e)
  Keeps-fault e = record { at = λ w h. h }

  pub Keeps-block : (b : Wait) → Keeps P (block {A = A} b)
  Keeps-block b = record { at = λ w h. h }

  pub Keeps-gets : (f : Server → A) → Keeps P (gets f)
  Keeps-gets f = record { at = λ w h. h }

  pub Keeps-if : (b : Bool) (m n : Handler A) → Keeps P m → Keeps P n → Keeps P (if b then m else n)
  Keeps-if true m n km kn = km
  Keeps-if false m n km kn = kn

module _ {P : World → Type 0} {A B : Type 0} where
  Keeps-after :
      (o : Outcome A) (w : World) (f : A → Handler B)
      → P w
      → ((a : A) → Keeps P (f a))
      → P (after o w f).1
  Keeps-after (ok a) w f h k = (k a).at w h
  Keeps-after returned w f h k = h
  Keeps-after (panic e) w f h k = h
  Keeps-after (blocked b) w f h k = h
  Keeps-after spun w f h k = h

  pub Keeps-bind :
      (m : Handler A) (f : A → Handler B)
      → Keeps P m
      → ((a : A) → Keeps P (f a))
      → Keeps P (m >>= f)
  Keeps-bind m f km kf = record { at = λ w h. Keeps-after (m w).0 (m w).1 f (km.at w h) kf }

pub ruleset keeps_rules =
    (Keeps-pure, Keeps-stop, Keeps-fault, Keeps-block, Keeps-gets, Keeps-if, Keeps-bind)
