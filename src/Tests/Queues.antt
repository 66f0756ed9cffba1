-- ===== src/Tests/Queues.antt =====
-- The theorems on the lists at concrete inputs.
use mathlib.Core.List.{zip}
use make_your_own_redis_go.Shared.{
  ◌++◌, ◌≡◌, refl, List, [], ◌∷◌, some, Bytes, codes, arith, beq, inl,
}
use make_your_own_redis_go.Shared.Int.{pos, negsuc, ◌+ℤ◌, ◌-ℤ◌}
use make_your_own_redis_go.Shared.Dict.{Every-nil, Every-store, load, load_or, or_else, store}
use make_your_own_redis_go.Text.{itoa_ℤ}
use make_your_own_redis_go.Resp.{bulk, bulks}
use make_your_own_redis_go.Commands.Lists.{
  new_list, deliver, push_right, push_left, lrange, pop_front,
}
use make_your_own_redis_go.Commands.Lists.Queue.{
  Served, AllServed, deliver-zip, push_right-AllServed, push_left-starves,
}
use make_your_own_redis_go.Commands.Lists.Range.{lrange-slice, pop_front-take}
use make_your_own_redis_go.Float.{float_eq, is_nan, order_key}
use make_your_own_redis_go.Resp.{array_header}
use make_your_own_redis_go.Server.Handler.{World, ok, contains}
use make_your_own_redis_go.Commands.Blocking.{received, blpop_receive, blpop_timeout}
use make_your_own_redis_go.Commands.Blocking.Wakes.{
  blpop_receive-push_right, blpop_timeout-push_right,
}
use make_your_own_redis_go.Tests.{client, one, session, master}

abbrev letters : List Bytes
letters = codes "a" ∷ codes "b" ∷ codes "c" ∷ []

deliver-zip_example : deliver (4 ∷ 9 ∷ []) letters [] ≡ record {
  clients = [];
  elements = codes "c" ∷ [];
  sent = (4, codes "a") ∷ (9, codes "b") ∷ [];
}
unfolding zip
deliver-zip_example = deliver-zip (4 ∷ 9 ∷ []) letters []

jobs-AllServed : AllServed master.lists
unfolding store
jobs-AllServed =
    Every-store Served (codes "jobs") (record { elements = []; clients = 4 ∷ 9 ∷ [] }) [] (inl refl)
      (Every-nil Served)

push_right-AllServed_example : AllServed (push_right (codes "jobs") letters master).lists
push_right-AllServed_example = push_right-AllServed (codes "jobs") letters master jobs-AllServed

push_left-starves_example :
    ((push_left (codes "jobs") letters master).sent ≡ [])
    × ¬ (Served (load_or (codes "jobs") new_list (push_left (codes "jobs") letters master).lists))
unfolding load_or load or_else beq
push_left-starves_example =
    push_left-starves (codes "jobs") (codes "a") (codes "b" ∷ codes "c" ∷ []) master (λ e. cc)

lrange-slice_example :
    lrange letters (pos 1) (negsuc 0) ≡ some (codes "*2\r\n$1\r\nb\r\n$1\r\nc\r\n")
unfolding itoa_ℤ bulks ◌+ℤ◌ ◌-ℤ◌ bulk
lrange-slice_example = lrange-slice letters (pos 1) (negsuc 0) (omega arith)

pop_front-take_example : pop_front 2 letters ≡ some (codes "a" ∷ codes "b" ∷ [], codes "c" ∷ [])
pop_front-take_example = pop_front-take 2 letters

-- Two elements for the two clients, the first of which is on channel 4.
abbrev pushed : World
pushed = record session {
  server = push_right (codes "jobs") (codes "a" ∷ codes "b" ∷ []) session.server;
}

blpop_receive-push_right_example :
    ((blpop_receive client (codes "jobs") 4 one pushed).0 ≡ ok tt)
    × ((blpop_receive client (codes "jobs") 4 one pushed).1.server.output
        ≡ (1, array_header 2 ++ (bulk (codes "jobs") ++ bulk (codes "a"))) ∷ [])
unfolding load_or load or_else beq received contains
blpop_receive-push_right_example =
    blpop_receive-push_right (codes "jobs") (codes "a") (codes "b" ∷ []) 4 (9 ∷ []) session refl
      refl client one

blpop_timeout-push_right_example :
    ((blpop_timeout client (codes "jobs") 4 one pushed).1.server.output ≡ (1, codes "*-1\r\n") ∷ [])
    × ((load_or
          (codes "jobs")
          new_list
          (blpop_timeout client (codes "jobs") 4 one pushed).1.server.lists).elements
        ≡ [])
    × (received 4 (blpop_timeout client (codes "jobs") 4 one pushed).1.server.sent
        ≡ some (codes "a"))
unfolding load_or load or_else beq received contains float_eq is_nan order_key
blpop_timeout-push_right_example =
    blpop_timeout-push_right (codes "jobs") (codes "a") (codes "b" ∷ []) 4 (9 ∷ []) session refl
      refl client one refl
