-- ===== src/Commands/Offsets.antt =====
-- The replication offsets: what a master counts and sends, and what a replica counts.
use mathlib.Core.Path.{subst}
use make_your_own_redis_go.Shared.{
  ℕ, ◌≡◌, refl, sym, ◌∙◌, ap, true, List, [], ◌∷◌, ◌++◌, append_assoc, append-nil, Bytes, codes,
  arith, length, length-append, some,
}
use make_your_own_redis_go.Shared.Int.{ℤ, pos, ◌+ℤ◌}
use make_your_own_redis_go.Shared.Dict.{load, store}
use make_your_own_redis_go.Resp.{bulk, bulks, command, bulk_sizes, offset_byte_size, array_header}
use make_your_own_redis_go.Server.{Server, Replica, number}
use make_your_own_redis_go.Server.Handler.{World, ok}
use make_your_own_redis_go.Server.Output.{arrives, with_output, say-with_output}
use make_your_own_redis_go.Commands.{
  has_role, info_int, int_of, store_info, count_command, send_all, add_offset, propagate_to,
  propagate_command,
}

bulk_sizes-bulks : (args : List Bytes) → bulk_sizes args ≡ length (bulks args)
unfolding bulk_sizes bulks
bulk_sizes-bulks [] = refl
bulk_sizes-bulks (a ∷ as') = omega (arith, bulk_sizes-bulks as', length-append (bulk a) (bulks as'))

-- OffsetByteSize is the length of the text that PropagateCommand sends.
offset_byte_size-command : (args : List Bytes) → offset_byte_size args ≡ length (command args)
unfolding offset_byte_size command
offset_byte_size-command args =
    omega (arith, bulk_sizes-bulks args, length-append (array_header (length args)) (bulks args))

-- One copy for each replica whose connection takes it.
abbrev pub copies : List Replica → Server → Bytes → List (ℕ × Bytes)
copies [] s bytes = []
copies (r ∷ rs) s bytes = arrives r.conn s bytes ++ copies rs s bytes

copies_dead :
    (rs : List Replica) (s t : Server) (bytes : Bytes)
    → s.dead ≡ t.dead
    → copies rs s bytes ≡ copies rs t bytes
copies_dead [] s t bytes h = refl
copies_dead (r ∷ rs) s t bytes h = rw (copies_dead rs s t bytes h, h)

with_output-append :
    (a b : List (ℕ × Bytes)) (w : World) → with_output b (with_output a w) ≡ with_output (a ++ b) w
with_output-append a b w = rw append_assoc

with_output-nil : (w : World) → with_output [] w ≡ w
with_output-nil w = rw append-nil

-- The loop over the replicas changes nothing but the output.
pub send_all-with_output :
    (rs : List Replica) (bytes : Bytes) (w : World)
    → send_all rs bytes w ≡ (ok tt, with_output (copies rs w.server bytes) w)
unfolding send_all
send_all-with_output [] bytes w = ap (λ v. (ok tt, v)) (sym (with_output-nil w))
send_all-with_output (r ∷ rs) bytes w =
    let next : World = with_output (arrives r.conn w.server bytes) w in
    rw say-with_output (
      send_all-with_output rs bytes next
      ∙ ap (λ v. (ok tt, v))
          (ap (λ c. with_output c next) (copies_dead rs next.server w.server bytes refl)
            ∙ with_output-append _ (copies rs w.server bytes) w))

-- The offset grows by `args`, and the replicas `rs` have been sent a copy.
abbrev pub Propagates : List Replica → List Bytes → Server → Server → Type 0
Propagates rs args old new =
    (new.master_offset ≡ old.master_offset +ℤ pos (length (command args)))
    × (new.output ≡ old.output ++ copies rs old (command args))

propagate_to-Propagates :
    (args : List Bytes) (r : Replica) (rs : List Replica) (w : World)
    → Propagates (r ∷ rs) args w.server (propagate_to (r ∷ rs) args w).1.server
unfolding propagate_to add_offset
propagate_to-Propagates args r rs w =
    rw send_all-with_output
      (refl, ap (λ c. w.server.output ++ c) (copies_dead (r ∷ rs) _ w.server (command args) refl))

-- A master with at least one replica counts the bytes of the command once, and writes one copy of it
-- to each replica, in their order, as far as the connections take it.
pub propagate_command-Propagates :
    (args : List Bytes) (r : Replica) (rs : List Replica) (w : World)
    → w.server.replicas ≡ r ∷ rs
    → Propagates (r ∷ rs) args w.server (propagate_command args w).1.server
unfolding propagate_command
propagate_command-Propagates args r rs w h =
    subst (λ x. Propagates (r ∷ rs) args w.server (propagate_to x args w).1.server) (sym h)
      (propagate_to-Propagates args r rs w)

-- A replica that processes the command counts the same bytes: its repl_offset grows by the length of
-- the text that the master has sent.
count_command_lem :
    (args : List Bytes) (n : ℤ) (w : World)
    → has_role (codes "slave") w.server ≡ true
    → load (codes "repl_offset") w.server.info ≡ some (number n)
    → ((count_command args w).0 ≡ ok tt)
      × ((count_command args w).1.server ≡ record (w.server) {
        info =
            store (codes "repl_offset") (number (n +ℤ pos (length (command args)))) w.server.info;
      })
unfolding count_command info_int int_of store_info
count_command_lem args n w slave there = rw (slave, there, offset_byte_size-command) (refl, refl)
