-- ===== src/Aof/Log.antt =====
-- What SET appends to the append-only file on a master.
use make_your_own_redis_go.Shared.{◌≡◌, refl, true, false, List, [], ◌∷◌, some, Bytes, codes, beq}
use make_your_own_redis_go.Shared.Dict.{load}
use make_your_own_redis_go.Resp.{command}
use make_your_own_redis_go.Server.{Server, Replica, text}
use make_your_own_redis_go.Server.Handler.{World, ok}
use make_your_own_redis_go.Commands.{
  is_role, has_role, count_command, add_offset, propagate_to, propagate_command, append_bytes,
  append_to_aof,
}
use make_your_own_redis_go.Commands.Offsets.{send_all-with_output}
use make_your_own_redis_go.Commands.Strings.{after_set}
use make_your_own_redis_go.Aof.RoundTrip.{set_command}

-- The propagation ends and leaves the file and ServerInfo alone.
abbrev Passes : World → World → Type 0
Passes v w = (v.server.aof ≡ w.server.aof) × (v.server.info ≡ w.server.info)

propagate_to-Passes :
    (rs : List Replica) (args : List Bytes) (w : World)
    → ((propagate_to rs args w).0 ≡ ok tt) × Passes (propagate_to rs args w).1 w
unfolding propagate_to add_offset
propagate_to-Passes [] args w = (refl, (refl, refl))
propagate_to-Passes (r ∷ rs) args w = rw send_all-with_output (refl, (refl, refl))

roles :
    (s : Server)
    → load (codes "role") s.info ≡ some (text (codes "master"))
    → (has_role (codes "slave") s ≡ false) × (has_role (codes "master") s ≡ true)
unfolding has_role is_role beq
roles s h = (rw h refl, rw h refl)

-- On a master with an open file, a SET appends its command, with the key and the value, and nothing else.
pub aof-after_set :
    (key value : Bytes) (w : World)
    → load (codes "role") w.server.info ≡ some (text (codes "master"))
    → (after_set key value w).1.server.aof
      ≡ append_bytes (command (set_command (key, value))) w.server.aof
unfolding after_set count_command propagate_command append_to_aof
aof-after_set key value w role =
    let passes = propagate_to-Passes w.server.replicas (set_command (key, value)) w in
    let is = roles w.server role in rw (is.0, is.1, passes.0, passes.1.0)
