-- ===== src/Server/Output.antt =====
-- What a write does to the outcome and to the output.
use make_your_own_redis_go.Shared.{
  ℕ, ◌≡◌, refl, append-nil, Bool, true, false, List, [], ◌∷◌, ◌++◌, Bytes, if◌then◌else◌,
}
use make_your_own_redis_go.Server.{Server, Conn}
use make_your_own_redis_go.Server.Handler.{World, Outcome, ok, contains, transmit, write, say}

-- A result that is no early end.
abbrev IsDone : Outcome Bool × World → Type 0
IsDone r = (b : Bool) × (r.0 ≡ ok b)

transmit-IsDone :
    (dead : Bool) (conn : Conn) (bytes : Bytes) (w : World) → IsDone (transmit dead conn bytes w)
unfolding transmit
transmit-IsDone true conn bytes w = (false, refl)
transmit-IsDone false conn bytes w = (true, refl)

either-IsDone :
    (b : Bool) (x y : Outcome Bool × World) → IsDone x → IsDone y → IsDone (if b then x else y)
either-IsDone true x y hx hy = hx
either-IsDone false x y hx hy = hy

pub write-IsDone : (conn : Conn) (bytes : Bytes) (w : World) → IsDone (write conn bytes w)
unfolding write
write-IsDone conn bytes w =
    either-IsDone conn.silent _ _ (true, refl)
      (transmit-IsDone (contains w.server.dead conn.id) conn bytes w)

-- The bytes that a connection receives from a write: none if it is silent or dead.
abbrev pub arrives : Conn → Server → Bytes → List (ℕ × Bytes)
arrives conn s bytes =
    if conn.silent then [] else if contains s.dead conn.id then [] else (conn.id, bytes) ∷ []

-- The session with more in the output.
abbrev pub with_output : List (ℕ × Bytes) → World → World
with_output more w = record w { server = record (w.server) { output = w.server.output ++ more } }

with_output-nil : (w : World) → w ≡ with_output [] w
with_output-nil w = rw append-nil

transmit_lem :
    (dead : Bool) (conn : Conn) (bytes : Bytes) (w : World)
    → (transmit dead conn bytes w).1 ≡ with_output (if dead then [] else (conn.id, bytes) ∷ []) w
unfolding transmit
transmit_lem true conn bytes w = with_output-nil w
transmit_lem false conn bytes w = refl

write_either :
    (silent : Bool) (x : Outcome Bool × World) (sent : List (ℕ × Bytes)) (w : World)
    → x.1 ≡ with_output sent w
    → (if silent then (ok true, w) else x).1 ≡ with_output (if silent then [] else sent) w
write_either true x sent w h = with_output-nil w
write_either false x sent w h = h

write_lem :
    (conn : Conn) (bytes : Bytes) (w : World)
    → (write conn bytes w).1 ≡ with_output (arrives conn w.server bytes) w
unfolding write
write_lem conn bytes w =
    write_either conn.silent _ _ w (transmit_lem (contains w.server.dead conn.id) conn bytes w)

-- A write changes nothing but the output.
pub say-with_output :
    (conn : Conn) (bytes : Bytes) (w : World)
    → say conn bytes w ≡ (ok tt, with_output (arrives conn w.server bytes) w)
unfolding say
say-with_output conn bytes w = rw ((write-IsDone conn bytes w).1, write_lem)
