-- ===== src/Tests/Sets.antt =====
-- The theorems on the sorted sets at concrete inputs.
use make_your_own_redis_go.Shared.{◌≡◌, refl, [], ◌∷◌, some, codes, arith, leb, beq}
use make_your_own_redis_go.Shared.Dict.{load, store}
use make_your_own_redis_go.Float.{is_nan}
use make_your_own_redis_go.Shared.Int.{pos, negsuc}
use make_your_own_redis_go.Resp.{command}
use make_your_own_redis_go.Commands.ZSets.{zrange}
use make_your_own_redis_go.Commands.ZSets.Slices.{Replies, zrange-slice}
use make_your_own_redis_go.Search.{search_index}
use make_your_own_redis_go.Search.Least.{Monotone, IsLeast, search_index-IsLeast}
use make_your_own_redis_go.Server.{SortedSet}
use make_your_own_redis_go.Server.Handler.{blocked, for_lock, World}
use make_your_own_redis_go.Commands.ZSets.{
  new_set, insert_at, place, member, add_element, remove_element, add_to_sorted_set, zrank,
}
use make_your_own_redis_go.Commands.ZSets.Order.{insert_ordered, place-insert_ordered}
use make_your_own_redis_go.Commands.ZSets.Valid.{
  IsValid, IsValid-new_set, add_element-IsValid, remove_element-IsValid,
}
use make_your_own_redis_go.Commands.ZSets.Locks.{zrank-blocks_zadd}
use make_your_own_redis_go.Tests.{low, high, client, session}

-- One element, "paris" at 2.5.
abbrev one_set : SortedSet
one_set = record new_set {
  elements = (codes "paris", high) ∷ [];
  order = (record { name = codes "paris"; score = high }) ∷ [];
}

one_set-IsValid : IsValid one_set
unfolding add_element store place member load search_index insert_at is_nan
one_set-IsValid = add_element-IsValid (codes "paris") high new_set refl IsValid-new_set

add_element-IsValid_example : IsValid (add_element (codes "bucharest") low one_set).0
unfolding is_nan
add_element-IsValid_example =
    add_element-IsValid (codes "bucharest") low one_set refl one_set-IsValid

remove_element-IsValid_example : IsValid (remove_element (codes "paris") one_set)
remove_element-IsValid_example = remove_element-IsValid (codes "paris") one_set one_set-IsValid

place-insert_ordered_example :
    place (codes "oslo") low one_set.order
    ≡ insert_ordered (record { name = codes "oslo"; score = low }) one_set.order
unfolding is_nan
place-insert_ordered_example =
    place-insert_ordered (record { name = codes "oslo"; score = low }) refl one_set.order
      (refl, tt, tt)

above_two-Monotone : Monotone 5 (leb 3)
above_two-Monotone i j le lt h = ground arith

search_index-IsLeast_example : IsLeast 5 (leb 3) 3
unfolding search_index
search_index-IsLeast_example = search_index-IsLeast 5 (leb 3) above_two-Monotone

abbrev with_towns : World
with_towns = record session {
  server = record (session.server) { zsets = (codes "towns", one_set) ∷ [] };
}

zrank-blocks_zadd_example :
    (add_to_sorted_set
      (codes "towns")
      (codes "rome")
      low
      (zrank client (codes "towns") (codes "paris") (some one_set) with_towns).1).0
    ≡ blocked (for_lock (codes "towns"))
unfolding load beq
zrank-blocks_zadd_example =
    zrank-blocks_zadd client (codes "towns") (codes "paris") (codes "rome") high low one_set
      with_towns one_set-IsValid.indexed refl refl

zrange-slice_example :
    Replies client
      (command (codes "paris" ∷ []))
      with_towns
      (zrange client (codes "towns") (pos 0) (negsuc 0) (some one_set) with_towns)
zrange-slice_example =
    zrange-slice client (codes "towns") one_set (pos 0) (negsuc 0) with_towns
      one_set-IsValid.indexed refl
