-- ===== src/Serve/SortedSets.antt =====
-- The handlers of the sorted sets and of the geographic commands come to an outcome.
use make_your_own_redis_go.Shared.{ℕ, List, Option, none, some, Bytes}
use make_your_own_redis_go.Shared.Int.{ℤ}
use make_your_own_redis_go.Float.{Float64}
use make_your_own_redis_go.Geo.{Arithmetic, Coordinates}
use make_your_own_redis_go.Server.{Conn, SortedSet, Library}
use make_your_own_redis_go.Server.Settles.{Settles}
use make_your_own_redis_go.Commands.Settles.{command_rules}
use make_your_own_redis_go.Commands.ZSets.{
  set_zset, lock, rlock, add_to_sorted_set, handle_zadd, rank_reply, zrank, handle_zrank,
  range_reply, zrange_locked, zrange, handle_zrange, zcard, handle_zcard, score_reply, zscore,
  handle_zscore, zrem, handle_zrem,
}
use make_your_own_redis_go.Commands.Geo.{
  Formats, add_location, handle_geoadd, geopos, handle_geopos, geodist, handle_geodist, geosearch,
  handle_geosearch,
}

Settles-set_zset : (key : Bytes) (z : SortedSet) → Settles (set_zset key z)
unfolding set_zset
Settles-set_zset key z = search command_rules

Settles-lock : (key : Bytes) (z : SortedSet) → Settles (lock key z)
unfolding lock
Settles-lock key z = search (command_rules, Settles-set_zset)

Settles-rlock : (key : Bytes) (z : SortedSet) → Settles (rlock key z)
unfolding rlock
Settles-rlock key z = search (command_rules, Settles-set_zset)

ruleset lock_rules = (command_rules, Settles-set_zset, Settles-lock, Settles-rlock)

Settles-add_to_sorted_set :
    (key name : Bytes) (score : Float64) → Settles (add_to_sorted_set key name score)
unfolding add_to_sorted_set
Settles-add_to_sorted_set key name score = search lock_rules depth 9

pub Settles-handle_zadd : (lib : Library) (conn : Conn) → Settles (handle_zadd lib conn)
unfolding handle_zadd
Settles-handle_zadd lib conn = search (lock_rules, Settles-add_to_sorted_set) depth 9

Settles-rank_reply :
    (conn : Conn) (key : Bytes) (z : SortedSet) (r : Option ℕ) → Settles (rank_reply conn key z r)
unfolding rank_reply
Settles-rank_reply conn key z none = search lock_rules
Settles-rank_reply conn key z (some rank) = search lock_rules

Settles-zrank :
    (conn : Conn) (key name : Bytes) (z : Option SortedSet) → Settles (zrank conn key name z)
unfolding zrank
Settles-zrank conn key name none = search lock_rules
Settles-zrank conn key name (some z) = search (lock_rules, Settles-rank_reply)

pub Settles-handle_zrank : (conn : Conn) → Settles (handle_zrank conn)
unfolding handle_zrank
Settles-handle_zrank conn = search (lock_rules, Settles-zrank) depth 9

Settles-range_reply :
    (conn : Conn) (key : Bytes) (z : SortedSet) (n : ℕ) (r : Option Bytes)
    → Settles (range_reply conn key z n r)
unfolding range_reply
Settles-range_reply conn key z n none = search lock_rules
Settles-range_reply conn key z n (some names) = search lock_rules

Settles-zrange_locked :
    (conn : Conn) (key : Bytes) (z : SortedSet) (i j : ℤ) → Settles (zrange_locked conn key z i j)
unfolding zrange_locked
Settles-zrange_locked conn key z i j = search (lock_rules, Settles-range_reply)

Settles-zrange :
    (conn : Conn) (key : Bytes) (i j : ℤ) (z : Option SortedSet) → Settles (zrange conn key i j z)
unfolding zrange
Settles-zrange conn key i j none = search lock_rules
Settles-zrange conn key i j (some z) = search (lock_rules, Settles-zrange_locked)

pub Settles-handle_zrange : (conn : Conn) → Settles (handle_zrange conn)
unfolding handle_zrange
Settles-handle_zrange conn = search (lock_rules, Settles-zrange) depth 9

Settles-zcard : (conn : Conn) (key : Bytes) (z : Option SortedSet) → Settles (zcard conn key z)
unfolding zcard
Settles-zcard conn key none = search lock_rules
Settles-zcard conn key (some z) = search lock_rules

pub Settles-handle_zcard : (conn : Conn) → Settles (handle_zcard conn)
unfolding handle_zcard
Settles-handle_zcard conn = search (lock_rules, Settles-zcard) depth 9

Settles-score_reply :
    (lib : Library) (conn : Conn) (key : Bytes) (z : SortedSet) (r : Option Float64)
    → Settles (score_reply lib conn key z r)
unfolding score_reply
Settles-score_reply lib conn key z none = search lock_rules
Settles-score_reply lib conn key z (some score) = search lock_rules

Settles-zscore :
    (lib : Library) (conn : Conn) (key name : Bytes) (z : Option SortedSet)
    → Settles (zscore lib conn key name z)
unfolding zscore
Settles-zscore lib conn key name none = search lock_rules
Settles-zscore lib conn key name (some z) = search (lock_rules, Settles-score_reply)

pub Settles-handle_zscore : (lib : Library) (conn : Conn) → Settles (handle_zscore lib conn)
unfolding handle_zscore
Settles-handle_zscore lib conn = search (lock_rules, Settles-zscore) depth 9

Settles-zrem :
    (conn : Conn) (key name : Bytes) (z : Option SortedSet) → Settles (zrem conn key name z)
unfolding zrem
Settles-zrem conn key name none = search lock_rules
Settles-zrem conn key name (some z) = search lock_rules depth 9

pub Settles-handle_zrem : (conn : Conn) → Settles (handle_zrem conn)
unfolding handle_zrem
Settles-handle_zrem conn = search (lock_rules, Settles-zrem) depth 9

module _ (lib : Library) (m : Arithmetic) (formats : Formats) (conn : Conn) where
  Settles-add_location :
      (key name : Bytes) (lon lat : Float64)
      → Settles (add_location lib m formats conn key name lon lat)
  unfolding add_location
  Settles-add_location key name lon lat = search (lock_rules, Settles-add_to_sorted_set) depth 9

  pub Settles-handle_geoadd : Settles (handle_geoadd lib m formats conn)
  unfolding handle_geoadd
  Settles-handle_geoadd = search (lock_rules, Settles-add_location) depth 12

  Settles-geopos :
      (key : Bytes) (names : List Bytes) (z : Option SortedSet)
      → Settles (geopos lib m formats conn key names z)
  unfolding geopos
  Settles-geopos key names none = search lock_rules
  Settles-geopos key names (some z) = search lock_rules depth 9

  pub Settles-handle_geopos : Settles (handle_geopos lib m formats conn)
  unfolding handle_geopos
  Settles-handle_geopos = search (lock_rules, Settles-geopos) depth 9

  Settles-geodist :
      (key a b : Bytes) (z : Option SortedSet) → Settles (geodist lib m formats conn key a b z)
  unfolding geodist
  Settles-geodist key a b none = search lock_rules
  Settles-geodist key a b (some z) = search lock_rules depth 9

  pub Settles-handle_geodist : Settles (handle_geodist lib m formats conn)
  unfolding handle_geodist
  Settles-handle_geodist = search (lock_rules, Settles-geodist) depth 9

  Settles-geosearch :
      (key : Bytes) (centre : Coordinates) (radius : Float64) (z : Option SortedSet)
      → Settles (geosearch lib m formats conn key centre radius z)
  unfolding geosearch
  Settles-geosearch key centre radius none = search lock_rules
  Settles-geosearch key centre radius (some z) = search lock_rules depth 9

  pub Settles-handle_geosearch : Settles (handle_geosearch lib m formats conn)
  unfolding handle_geosearch
  Settles-handle_geosearch = search (lock_rules, Settles-geosearch) depth 15
