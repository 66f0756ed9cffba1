-- ===== src/Tests/Steps.antt =====
-- The theorems on the interleaving of connections at concrete inputs.
use make_your_own_redis_go.Shared.{◌≡◌, ◌<◌, refl, [], ◌∷◌, codes, arith, beq}
use make_your_own_redis_go.Shared.Dict.{Every-nil, load, load_or, store, or_else}
use make_your_own_redis_go.Float.{is_nan, order_key, float_eq}
use make_your_own_redis_go.Server.{Server, blank}
use make_your_own_redis_go.Commands.ZSets.Indexed.{IsIndexed}
use make_your_own_redis_go.Server.Handler.{say, write, transmit, contains}
use make_your_own_redis_go.Commands.Blocking.{blpop_timeout, set_list, remove_client}
use make_your_own_redis_go.Serve.{run_line}
use make_your_own_redis_go.Serve.Channels.{AreOpen, queued, buffered, count}
use make_your_own_redis_go.Serve.Indexed.{AllIndexed}
use make_your_own_redis_go.System.{Step, Reach, on}
use make_your_own_redis_go.System.Properties.{Reach-has_room, Reach-AllIndexed}
use make_your_own_redis_go.Tests.{
  library, arithmetic, formats, client, one, empty_reader, zadd_reader,
}

-- Two clients wait for a value of "jobs"; the time of the first one runs out.
abbrev with_waiting : Server
with_waiting = record blank {
  lists = (codes "jobs", record { elements = []; clients = 4 ∷ 9 ∷ [] }) ∷ [];
  next_channel = 10;
}

abbrev after_timeout : Server
after_timeout =
    (blpop_timeout client (codes "jobs") 4 one
      (on empty_reader (codes "default") with_waiting)).1.server

abbrev one_timeout : Reach library arithmetic formats with_waiting after_timeout
one_timeout =
    Reach.next Reach.here
      (Step.times_out client (codes "jobs") 4 one empty_reader (codes "default") refl)

with_waiting-AreOpen : AreOpen with_waiting
unfolding queued buffered count
with_waiting-AreOpen = record { once = λ c. ground arith; unused = λ c less. ground arith }

waits : 0 < queued 9 after_timeout.lists
unfolding queued count blpop_timeout float_eq is_nan order_key set_list say write store load_or load
    or_else remove_client beq transmit contains
waits = omega arith

Reach-has_room_example : buffered 9 after_timeout.sent ≡ 0
Reach-has_room_example =
    Reach-has_room library arithmetic formats 9 one_timeout with_waiting-AreOpen waits

abbrev after_zadd : Server
after_zadd =
    (run_line library arithmetic formats client (codes "ZADD\r\n")
      (on zadd_reader (codes "default") blank)).1.server

abbrev one_zadd : Reach library arithmetic formats blank after_zadd
one_zadd =
    Reach.next Reach.here (Step.runs client (codes "ZADD\r\n") zadd_reader (codes "default") refl)

Reach-AllIndexed_example : AllIndexed after_zadd.zsets
Reach-AllIndexed_example =
    Reach-AllIndexed library arithmetic formats one_zadd (Every-nil IsIndexed)
