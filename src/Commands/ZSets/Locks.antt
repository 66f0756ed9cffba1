-- ===== src/Commands/ZSets/Locks.antt =====
-- The locks of the sorted sets: which operations give back what they take.
use make_your_own_redis_go.Shared.{
  ℕ, ◌+◌, ◌≡◌, refl, true, false, some, Bytes, arith, beq_refl, ltb,
}
use make_your_own_redis_go.Shared.Dict.{
  Every, Every-store, Every-load_or, Dict, load, store, load_or, load-store, load_or-store,
  store_again,
}
use make_your_own_redis_go.Float.{Float64}
use make_your_own_redis_go.Server.{Conn, SortedSet}
use make_your_own_redis_go.Server.Handler.{World, ok, blocked, for_lock}
use make_your_own_redis_go.Server.Output.{say-with_output}
use make_your_own_redis_go.Commands.ZSets.Indexed.{IsIndexed}
use make_your_own_redis_go.Commands.ZSets.Ranks.{rank_from-get_elem}
use make_your_own_redis_go.Commands.ZSets.{
  new_set, set_zset, member, add_element, lock, rlock, add_to_sorted_set, rank_from, rank_reply,
  zrank,
}

abbrev pub IsFree : SortedSet → Type 0
IsFree z = (z.readers ≡ 0) × (z.writer ≡ false)

-- Nobody holds a lock of a sorted set of the server.
abbrev pub AllFree : Dict SortedSet → Type 0
AllFree d = Every IsFree d

-- The world with the given sorted sets.
abbrev pub with_sets : Dict SortedSet → World → World
with_sets d w = record w { server = record (w.server) { zsets = d } }

lock_free :
    (key : Bytes) (z : SortedSet) (w : World)
    → IsFree z
    → lock key z w ≡ (ok tt, with_sets (store key (record z { writer = true }) w.server.zsets) w)
unfolding lock set_zset
lock_free key z w (r, k) = rw (r, k)

lock_taken :
    (key : Bytes) (z : SortedSet) (w : World)
    → ltb 0 z.readers ≡ true
    → (lock key z w).0 ≡ blocked (for_lock key)
unfolding lock set_zset
lock_taken key z w r = rw r

-- ZADD on sets that nobody holds: it does not wait, and afterwards the set has the element and nobody
-- holds any set.
add_to_sorted_set-AllFree :
    (key name : Bytes) (score : Float64) (w : World)
    → AllFree w.server.zsets
    → ((add_to_sorted_set key name score w).0
        ≡ ok (add_element name score (load_or key new_set w.server.zsets)).1)
      × (load key (add_to_sorted_set key name score w).1.server.zsets
          ≡ some (add_element name score (load_or key new_set w.server.zsets)).0)
      × AllFree (add_to_sorted_set key name score w).1.server.zsets
unfolding add_to_sorted_set set_zset add_element
add_to_sorted_set-AllFree key name score w all =
    let free = Every-load_or IsFree key new_set w.server.zsets (refl, refl) all in
    rw (lock_free key (load_or key new_set w.server.zsets) w free, store_again)
      (refl, rw (load-store, beq_refl key), Every-store IsFree key _ w.server.zsets free all)

pub rlock_lem :
    (key : Bytes) (z : SortedSet) (w : World)
    → z.writer ≡ false
    → rlock key z w
      ≡ (ok tt, with_sets (store key (record z { readers = z.readers + 1 }) w.server.zsets) w)
unfolding rlock set_zset
rlock_lem key z w free = rw free

-- What ZRANK leaves of a set when it has answered with a rank.
zsets-zrank :
    (conn : Conn) (key name : Bytes) (rank : ℕ) (z : SortedSet) (w : World)
    → z.writer ≡ false
    → member name z.elements ≡ true
    → rank_from 0 name z.order ≡ some rank
    → (zrank conn key name (some z) w).1.server.zsets
      ≡ store key (record z { readers = z.readers + 1 }) w.server.zsets
unfolding zrank rank_reply
zsets-zrank conn key name rank z w free known found =
    rw (rlock_lem key z w free, known, found, say-with_output)

zadd_blocks :
    (key name : Bytes) (score : Float64) (z : SortedSet) (w : World)
    → load_or key new_set w.server.zsets ≡ z
    → ltb 0 z.readers ≡ true
    → (add_to_sorted_set key name score w).0 ≡ blocked (for_lock key)
unfolding add_to_sorted_set
zadd_blocks key name score z w held taken = rw (held, lock_taken key z w taken)

held :
    (key : Bytes) (z : SortedSet) (d e : Dict SortedSet)
    → e ≡ store key z d
    → load_or key new_set e ≡ z
held key z d e h = rw (h, load_or-store, beq_refl key)

member-some :
    (name : Bytes) (score : Float64) (d : Dict Float64)
    → load name d ≡ some score
    → member name d ≡ true
unfolding member
member-some name score d h = rw (member, h)

-- The read lock that ZRANK takes is not given back when it answers with a rank: behind a ZRANK for an
-- element that a valid set has, the next ZADD on the same key waits for the lock.
pub zrank-blocks_zadd :
    (conn : Conn) (key name other : Bytes) (old new : Float64) (z : SortedSet) (w : World)
    → IsIndexed z
    → z.writer ≡ false
    → load name z.elements ≡ some old
    → (add_to_sorted_set key other new (zrank conn key name (some z) w).1).0
      ≡ blocked (for_lock key)
zrank-blocks_zadd conn key name other old new z w indexed free there =
    let ranked = rank_from-get_elem name old z indexed there in
    let reading : SortedSet = record z { readers = z.readers + 1 } in
    zadd_blocks key other new reading (zrank conn key name (some z) w).1
      (held key reading w.server.zsets _ (
        zsets-zrank conn key name (ranked.0) z w free (member-some name old z.elements there)
          (ranked.1)))
      (ground arith)
