-- ===== src/Commands/Blocking/Wakes.antt =====
-- A client that waits in BLPOP, an RPUSH on its list, and what the client then does.
use mathlib.Core.List.{zip, zip_with}
use make_your_own_redis_go.Shared.{
  ℕ, ◌≡◌, refl, false, List, [], ◌∷◌, ◌++◌, none, some, Bytes, codes, arith, beq_refl, length, drop,
}
use make_your_own_redis_go.Shared.Dict.{load_or, load_or-store}
use make_your_own_redis_go.Float.{Float64, float_eq, float_zero}
use make_your_own_redis_go.Resp.{bulk, array_header}
use make_your_own_redis_go.Server.{Conn}
use make_your_own_redis_go.Server.Handler.{World, ok}
use make_your_own_redis_go.Server.Output.{arrives, say-with_output}
use make_your_own_redis_go.Commands.Lists.{new_list, push_right}
use make_your_own_redis_go.Commands.Lists.Queue.{deliver-zip}
use make_your_own_redis_go.Commands.Blocking.{
  blpop_success, set_list, received, finish_receive, blpop_receive, blpop_timeout,
}

received-append :
    (ch : ℕ) (xs ys : List (ℕ × Bytes))
    → received ch xs ≡ none
    → received ch (xs ++ ys) ≡ received ch ys
unfolding received
received-append ch [] ys h = refl
received-append ch ((c, e) ∷ xs) ys h = ground (arith, received-append ch xs ys)

module _ (key e : Bytes) (es : List Bytes) (ch : ℕ) (cs : List ℕ) (w : World)
    (waiting : load_or key new_list w.server.lists ≡ record { elements = []; clients = ch ∷ cs })
    (open' : received ch w.server.sent ≡ none) where
  -- The session behind RPUSH.
  abbrev pushed : World
  pushed = record w { server = push_right key (e ∷ es) w.server }

  received-push_right : received ch (push_right key (e ∷ es) w.server).sent ≡ some e
  unfolding push_right received zip zip_with
  received-push_right =
      rw
        (
          waiting,
          deliver-zip (ch ∷ cs) (e ∷ es) w.server.sent,
          received-append ch w.server.sent _ open',
        )
        (ground arith)

  -- A client that is first in the queue of an empty list and has nothing in its channel yet: behind an
  -- RPUSH its receive does not block, and its reply is the key and the first element of the RPUSH.
  pub blpop_receive-push_right :
      (conn : Conn) (timeout : Float64)
      → let r =
          blpop_receive conn key ch timeout
            (record w { server = push_right key (e ∷ es) w.server }) in
        (r.0 ≡ ok tt)
        × (r.1.server.output
            ≡ w.server.output ++ arrives conn w.server (array_header 2 ++ (bulk key ++ bulk e)))
  unfolding blpop_receive finish_receive blpop_success
  blpop_receive-push_right conn timeout =
      rw (received-push_right, say-with_output) (unfold push_right in (refl, refl))

  elements-push_right :
      (load_or key new_list (push_right key (e ∷ es) w.server).lists).elements ≡ drop (length cs) es
  unfolding push_right
  elements-push_right =
      rw (load_or-store, beq_refl key, waiting, deliver-zip (ch ∷ cs) (e ∷ es) w.server.sent)

  -- The same client, when its select chooses the timeout although the value is already in its channel:
  -- it replies that there was nothing, the first element of the RPUSH is not put back into the list, and
  -- it stays in the channel.
  pub blpop_timeout-push_right :
      (conn : Conn) (timeout : Float64)
      → float_eq timeout float_zero ≡ false
      → let r =
          blpop_timeout conn key ch timeout
            (record w { server = push_right key (e ∷ es) w.server }) in
        (r.1.server.output ≡ w.server.output ++ arrives conn w.server (codes "*-1\r\n"))
        × ((load_or key new_list r.1.server.lists).elements ≡ drop (length cs) es)
        × (received ch r.1.server.sent ≡ some e)
  unfolding blpop_timeout set_list
  blpop_timeout-push_right conn timeout positive =
      rw
        (
          positive,
          say-with_output,
          load_or-store,
          beq_refl key,
          elements-push_right,
          received-push_right,
        )
        (unfold push_right in (refl, refl, refl))
