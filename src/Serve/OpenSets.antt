-- ===== src/Serve/OpenSets.antt =====
-- The handlers of the sorted sets and of the geographic commands do the same for every user.
use make_your_own_redis_go.Shared.{
  ℕ, refl, List, ◌∷◌, [], ◌++◌, zero, suc, Option, none, some, Bytes,
}
use make_your_own_redis_go.Shared.Int.{ℤ}
use make_your_own_redis_go.Float.{Float64}
use make_your_own_redis_go.Geo.{Arithmetic, Coordinates}
use make_your_own_redis_go.Server.{Conn, SortedSet, Library}
use make_your_own_redis_go.Server.AnyUser.{
  AnyUser, any_user_rules, AnyUser-bind, AnyUser-if, AnyUser-pure, AnyUser-read_arg,
  AnyUser-has_buffered,
}
use make_your_own_redis_go.Reader.{size}
use make_your_own_redis_go.Commands.{collect_args, rest_args}
use make_your_own_redis_go.Commands.ZSets.{
  set_zset, lock, rlock, add_to_sorted_set, handle_zadd, rank_reply, zrank, handle_zrank,
  range_reply, zrange_locked, zrange, handle_zrange, zcard, handle_zcard, score_reply, zscore,
  handle_zscore, zrem, handle_zrem,
}
use make_your_own_redis_go.Commands.Geo.{
  Formats, add_location, handle_geoadd, geopos, handle_geopos, geodist, handle_geodist, geosearch,
  handle_geosearch,
}

collect_args-AnyUser : (fuel : ℕ) (elems : List Bytes) → AnyUser (collect_args fuel elems)
unfolding collect_args
collect_args-AnyUser zero elems = record { at = λ w u. refl }
collect_args-AnyUser (suc fuel) elems = AnyUser-bind _ _ AnyUser-has_buffered λ more.
    AnyUser-if more _ _
      (AnyUser-bind _ _ AnyUser-read_arg λ a. collect_args-AnyUser fuel (elems ++ a ∷ []))
      (AnyUser-pure elems)

AnyUser-rest_args : AnyUser rest_args
unfolding rest_args
AnyUser-rest_args = record { at = λ w u. (collect_args-AnyUser (suc (size w.reader)) []).at w u }

AnyUser-set_zset : (key : Bytes) (z : SortedSet) → AnyUser (set_zset key z)
unfolding set_zset
AnyUser-set_zset key z = search any_user_rules

AnyUser-lock : (key : Bytes) (z : SortedSet) → AnyUser (lock key z)
unfolding lock
AnyUser-lock key z = search (any_user_rules, AnyUser-set_zset)

AnyUser-rlock : (key : Bytes) (z : SortedSet) → AnyUser (rlock key z)
unfolding rlock
AnyUser-rlock key z = search (any_user_rules, AnyUser-set_zset)

ruleset lock_rules =
    (any_user_rules, AnyUser-rest_args, AnyUser-set_zset, AnyUser-lock, AnyUser-rlock)

AnyUser-add_to_sorted_set :
    (key name : Bytes) (score : Float64) → AnyUser (add_to_sorted_set key name score)
unfolding add_to_sorted_set
AnyUser-add_to_sorted_set key name score = search lock_rules depth 9

pub AnyUser-handle_zadd : (lib : Library) (conn : Conn) → AnyUser (handle_zadd lib conn)
unfolding handle_zadd
AnyUser-handle_zadd lib conn = search (lock_rules, AnyUser-add_to_sorted_set) depth 9

AnyUser-rank_reply :
    (conn : Conn) (key : Bytes) (z : SortedSet) (r : Option ℕ) → AnyUser (rank_reply conn key z r)
unfolding rank_reply
AnyUser-rank_reply conn key z none = search lock_rules
AnyUser-rank_reply conn key z (some rank) = search lock_rules

AnyUser-zrank :
    (conn : Conn) (key name : Bytes) (z : Option SortedSet) → AnyUser (zrank conn key name z)
unfolding zrank
AnyUser-zrank conn key name none = search lock_rules
AnyUser-zrank conn key name (some z) = search (lock_rules, AnyUser-rank_reply)

pub AnyUser-handle_zrank : (conn : Conn) → AnyUser (handle_zrank conn)
unfolding handle_zrank
AnyUser-handle_zrank conn = search (lock_rules, AnyUser-zrank) depth 9

AnyUser-range_reply :
    (conn : Conn) (key : Bytes) (z : SortedSet) (n : ℕ) (r : Option Bytes)
    → AnyUser (range_reply conn key z n r)
unfolding range_reply
AnyUser-range_reply conn key z n none = search lock_rules
AnyUser-range_reply conn key z n (some names) = search lock_rules

AnyUser-zrange_locked :
    (conn : Conn) (key : Bytes) (z : SortedSet) (i j : ℤ) → AnyUser (zrange_locked conn key z i j)
unfolding zrange_locked
AnyUser-zrange_locked conn key z i j = search (lock_rules, AnyUser-range_reply)

AnyUser-zrange :
    (conn : Conn) (key : Bytes) (i j : ℤ) (z : Option SortedSet) → AnyUser (zrange conn key i j z)
unfolding zrange
AnyUser-zrange conn key i j none = search lock_rules
AnyUser-zrange conn key i j (some z) = search (lock_rules, AnyUser-zrange_locked)

pub AnyUser-handle_zrange : (conn : Conn) → AnyUser (handle_zrange conn)
unfolding handle_zrange
AnyUser-handle_zrange conn = search (lock_rules, AnyUser-zrange) depth 9

AnyUser-zcard : (conn : Conn) (key : Bytes) (z : Option SortedSet) → AnyUser (zcard conn key z)
unfolding zcard
AnyUser-zcard conn key none = search lock_rules
AnyUser-zcard conn key (some z) = search lock_rules

pub AnyUser-handle_zcard : (conn : Conn) → AnyUser (handle_zcard conn)
unfolding handle_zcard
AnyUser-handle_zcard conn = search (lock_rules, AnyUser-zcard) depth 9

AnyUser-score_reply :
    (lib : Library) (conn : Conn) (key : Bytes) (z : SortedSet) (r : Option Float64)
    → AnyUser (score_reply lib conn key z r)
unfolding score_reply
AnyUser-score_reply lib conn key z none = search lock_rules
AnyUser-score_reply lib conn key z (some score) = search lock_rules

AnyUser-zscore :
    (lib : Library) (conn : Conn) (key name : Bytes) (z : Option SortedSet)
    → AnyUser (zscore lib conn key name z)
unfolding zscore
AnyUser-zscore lib conn key name none = search lock_rules
AnyUser-zscore lib conn key name (some z) = search (lock_rules, AnyUser-score_reply)

pub AnyUser-handle_zscore : (lib : Library) (conn : Conn) → AnyUser (handle_zscore lib conn)
unfolding handle_zscore
AnyUser-handle_zscore lib conn = search (lock_rules, AnyUser-zscore) depth 9

AnyUser-zrem :
    (conn : Conn) (key name : Bytes) (z : Option SortedSet) → AnyUser (zrem conn key name z)
unfolding zrem
AnyUser-zrem conn key name none = search lock_rules
AnyUser-zrem conn key name (some z) = search lock_rules depth 9

pub AnyUser-handle_zrem : (conn : Conn) → AnyUser (handle_zrem conn)
unfolding handle_zrem
AnyUser-handle_zrem conn = search (lock_rules, AnyUser-zrem) depth 9

module _ (lib : Library) (m : Arithmetic) (formats : Formats) (conn : Conn) where
  AnyUser-add_location :
      (key name : Bytes) (lon lat : Float64)
      → AnyUser (add_location lib m formats conn key name lon lat)
  unfolding add_location
  AnyUser-add_location key name lon lat = search (lock_rules, AnyUser-add_to_sorted_set) depth 9

  pub AnyUser-handle_geoadd : AnyUser (handle_geoadd lib m formats conn)
  unfolding handle_geoadd
  AnyUser-handle_geoadd = search (lock_rules, AnyUser-add_location) depth 12

  AnyUser-geopos :
      (key : Bytes) (names : List Bytes) (z : Option SortedSet)
      → AnyUser (geopos lib m formats conn key names z)
  unfolding geopos
  AnyUser-geopos key names none = search lock_rules
  AnyUser-geopos key names (some z) = search lock_rules depth 9

  pub AnyUser-handle_geopos : AnyUser (handle_geopos lib m formats conn)
  unfolding handle_geopos
  AnyUser-handle_geopos = search (lock_rules, AnyUser-geopos) depth 9

  AnyUser-geodist :
      (key a b : Bytes) (z : Option SortedSet) → AnyUser (geodist lib m formats conn key a b z)
  unfolding geodist
  AnyUser-geodist key a b none = search lock_rules
  AnyUser-geodist key a b (some z) = search lock_rules depth 9

  pub AnyUser-handle_geodist : AnyUser (handle_geodist lib m formats conn)
  unfolding handle_geodist
  AnyUser-handle_geodist = search (lock_rules, AnyUser-geodist) depth 9

  AnyUser-geosearch :
      (key : Bytes) (centre : Coordinates) (radius : Float64) (z : Option SortedSet)
      → AnyUser (geosearch lib m formats conn key centre radius z)
  unfolding geosearch
  AnyUser-geosearch key centre radius none = search lock_rules
  AnyUser-geosearch key centre radius (some z) = search lock_rules depth 9

  pub AnyUser-handle_geosearch : AnyUser (handle_geosearch lib m formats conn)
  unfolding handle_geosearch
  AnyUser-handle_geosearch = search (lock_rules, AnyUser-geosearch) depth 15
