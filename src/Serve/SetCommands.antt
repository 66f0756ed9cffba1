-- ===== src/Serve/SetCommands.antt =====
-- The handlers of the sorted sets and of the locations change the sorted sets only, beside what every
-- handler may change.
use make_your_own_redis_go.Shared.{ℕ, List, Option, none, some, Bytes}
use make_your_own_redis_go.Shared.Int.{ℤ}
use make_your_own_redis_go.Shared.Dict.{Dict}
use make_your_own_redis_go.Float.{Float64}
use make_your_own_redis_go.Geo.{Arithmetic, Coordinates}
use make_your_own_redis_go.Server.{Conn, SortedSet, Library}
use make_your_own_redis_go.Server.Handler.{World}
use make_your_own_redis_go.Server.Keeps.{Keeps}
use make_your_own_redis_go.Commands.Frame.{IsQuiet, quiet_rules}
use make_your_own_redis_go.Commands.ZSets.{
  set_zset, lock, rlock, add_to_sorted_set, handle_zadd, rank_reply, zrank, handle_zrank,
  range_reply, zrange_locked, zrange, handle_zrange, zcard, handle_zcard, score_reply, zscore,
  handle_zscore, zrem, handle_zrem,
}
use make_your_own_redis_go.Commands.Geo.{
  Formats, add_location, handle_geoadd, geopos, handle_geopos, geodist, handle_geodist, geosearch,
  handle_geosearch,
}

-- A property that does not look at the sorted sets.
pub record IsSetless (P : World → Type 0) : Type 0 where
  pub sets :
      (w : World) (z : Dict SortedSet)
      → P w
      → P (record w { server = record (w.server) { zsets = z } })

module _ (P : World → Type 0) (quiet : IsQuiet P) (setless : IsSetless P) where
  Keeps-set_zset : (key : Bytes) (z : SortedSet) → Keeps P (set_zset key z)
  unfolding set_zset
  Keeps-set_zset key z = record { at = λ w h. setless.sets w _ h }

  Keeps-lock : (key : Bytes) (z : SortedSet) → Keeps P (lock key z)
  unfolding lock
  Keeps-lock key z = search (quiet_rules, Keeps-set_zset)

  Keeps-rlock : (key : Bytes) (z : SortedSet) → Keeps P (rlock key z)
  unfolding rlock
  Keeps-rlock key z = search (quiet_rules, Keeps-set_zset)

  ruleset set_rules = (quiet_rules, Keeps-set_zset, Keeps-lock, Keeps-rlock)

  Keeps-add_to_sorted_set :
      (key name : Bytes) (score : Float64) → Keeps P (add_to_sorted_set key name score)
  unfolding add_to_sorted_set
  Keeps-add_to_sorted_set key name score = search set_rules depth 9

  pub Keeps-handle_zadd : (lib : Library) (conn : Conn) → Keeps P (handle_zadd lib conn)
  unfolding handle_zadd
  Keeps-handle_zadd lib conn = search (set_rules, Keeps-add_to_sorted_set) depth 9

  Keeps-rank_reply :
      (conn : Conn) (key : Bytes) (z : SortedSet) (r : Option ℕ) → Keeps P (rank_reply conn key z r)
  unfolding rank_reply
  Keeps-rank_reply conn key z none = Keeps-set_zset key z
  Keeps-rank_reply conn key z (some rank) = search set_rules

  Keeps-zrank :
      (conn : Conn) (key name : Bytes) (o : Option SortedSet) → Keeps P (zrank conn key name o)
  unfolding zrank
  Keeps-zrank conn key name none = search set_rules
  Keeps-zrank conn key name (some z) = search (set_rules, Keeps-rank_reply)

  pub Keeps-handle_zrank : (conn : Conn) → Keeps P (handle_zrank conn)
  unfolding handle_zrank
  Keeps-handle_zrank conn = search (set_rules, Keeps-zrank) depth 9

  Keeps-range_reply :
      (conn : Conn) (key : Bytes) (z : SortedSet) (n : ℕ) (r : Option Bytes)
      → Keeps P (range_reply conn key z n r)
  unfolding range_reply
  Keeps-range_reply conn key z n none = search set_rules
  Keeps-range_reply conn key z n (some names) = search set_rules

  Keeps-zrange :
      (conn : Conn) (key : Bytes) (i j : ℤ) (o : Option SortedSet) → Keeps P (zrange conn key i j o)
  unfolding zrange zrange_locked
  Keeps-zrange conn key i j none = search set_rules
  Keeps-zrange conn key i j (some z) = search (set_rules, Keeps-range_reply)

  pub Keeps-handle_zrange : (conn : Conn) → Keeps P (handle_zrange conn)
  unfolding handle_zrange
  Keeps-handle_zrange conn = search (set_rules, Keeps-zrange) depth 9

  Keeps-zcard : (conn : Conn) (key : Bytes) (o : Option SortedSet) → Keeps P (zcard conn key o)
  unfolding zcard
  Keeps-zcard conn key none = search set_rules
  Keeps-zcard conn key (some z) = search set_rules

  pub Keeps-handle_zcard : (conn : Conn) → Keeps P (handle_zcard conn)
  unfolding handle_zcard
  Keeps-handle_zcard conn = search (set_rules, Keeps-zcard) depth 9

  Keeps-score_reply :
      (lib : Library) (conn : Conn) (key : Bytes) (z : SortedSet) (r : Option Float64)
      → Keeps P (score_reply lib conn key z r)
  unfolding score_reply
  Keeps-score_reply lib conn key z none = search set_rules
  Keeps-score_reply lib conn key z (some score) = search set_rules

  Keeps-zscore :
      (lib : Library) (conn : Conn) (key name : Bytes) (o : Option SortedSet)
      → Keeps P (zscore lib conn key name o)
  unfolding zscore
  Keeps-zscore lib conn key name none = search set_rules
  Keeps-zscore lib conn key name (some z) = search (set_rules, Keeps-score_reply)

  pub Keeps-handle_zscore : (lib : Library) (conn : Conn) → Keeps P (handle_zscore lib conn)
  unfolding handle_zscore
  Keeps-handle_zscore lib conn = search (set_rules, Keeps-zscore) depth 9

  Keeps-zrem :
      (conn : Conn) (key name : Bytes) (o : Option SortedSet) → Keeps P (zrem conn key name o)
  unfolding zrem
  Keeps-zrem conn key name none = search set_rules
  Keeps-zrem conn key name (some z) = search set_rules depth 9

  pub Keeps-handle_zrem : (conn : Conn) → Keeps P (handle_zrem conn)
  unfolding handle_zrem
  Keeps-handle_zrem conn = search (set_rules, Keeps-zrem) depth 9

  module _ (lib : Library) (m : Arithmetic) (formats : Formats) (conn : Conn) where
    Keeps-add_location :
        (key name : Bytes) (lon lat : Float64)
        → Keeps P (add_location lib m formats conn key name lon lat)
    unfolding add_location
    Keeps-add_location key name lon lat = search (set_rules, Keeps-add_to_sorted_set) depth 9

    pub Keeps-handle_geoadd : Keeps P (handle_geoadd lib m formats conn)
    unfolding handle_geoadd
    Keeps-handle_geoadd = search (set_rules, Keeps-add_location) depth 12

    Keeps-geopos :
        (key : Bytes) (names : List Bytes) (o : Option SortedSet)
        → Keeps P (geopos lib m formats conn key names o)
    unfolding geopos
    Keeps-geopos key names none = search set_rules
    Keeps-geopos key names (some z) = search set_rules depth 9

    pub Keeps-handle_geopos : Keeps P (handle_geopos lib m formats conn)
    unfolding handle_geopos
    Keeps-handle_geopos = search (set_rules, Keeps-geopos) depth 9

    Keeps-geodist :
        (key a b : Bytes) (o : Option SortedSet) → Keeps P (geodist lib m formats conn key a b o)
    unfolding geodist
    Keeps-geodist key a b none = search set_rules
    Keeps-geodist key a b (some z) = search set_rules depth 9

    pub Keeps-handle_geodist : Keeps P (handle_geodist lib m formats conn)
    unfolding handle_geodist
    Keeps-handle_geodist = search (set_rules, Keeps-geodist) depth 9

    Keeps-geosearch :
        (key : Bytes) (centre : Coordinates) (radius : Float64) (o : Option SortedSet)
        → Keeps P (geosearch lib m formats conn key centre radius o)
    unfolding geosearch
    Keeps-geosearch key centre radius none = search set_rules
    Keeps-geosearch key centre radius (some z) = search set_rules depth 9

    pub Keeps-handle_geosearch : Keeps P (handle_geosearch lib m formats conn)
    unfolding handle_geosearch
    Keeps-handle_geosearch = search (set_rules, Keeps-geosearch) depth 15
