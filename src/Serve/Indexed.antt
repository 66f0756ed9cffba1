-- ===== src/Serve/Indexed.antt =====
-- An invariant of the whole server: every sorted set lists each entry of its map once, with its score.
use make_your_own_redis_go.Shared.{◌≡◌, refl, ℕ, List, Option, none, some, Bytes}
use make_your_own_redis_go.Shared.Int.{ℤ}
use make_your_own_redis_go.Shared.Dict.{Dict, load, load_or, Every, Every-store, Every-load_or}
use make_your_own_redis_go.Float.{Float64}
use make_your_own_redis_go.Geo.{Arithmetic, Coordinates}
use make_your_own_redis_go.Server.{Conn, SortedSet, Library}
use make_your_own_redis_go.Server.Handler.{World, Handler, ◌>>=◌, gets}
use make_your_own_redis_go.Server.Keeps.{Keeps}
use make_your_own_redis_go.Commands.Frame.{IsQuiet, quiet_rules}
use make_your_own_redis_go.Commands.ZSets.{
  new_set, set_zset, lock, rlock, add_to_sorted_set, handle_zadd, rank_reply, zrank, handle_zrank,
  range_reply, zrange_locked, zrange, handle_zrange, zcard, handle_zcard, score_reply, zscore,
  handle_zscore, zrem, handle_zrem,
}
use make_your_own_redis_go.Commands.ZSets.Indexed.{
  IsIndexed, IsIndexed-new_set, add_element-IsIndexed, remove_element-IsIndexed,
}
use make_your_own_redis_go.Commands.Geo.{
  Formats, add_location, handle_geoadd, geopos, handle_geopos, geodist, handle_geodist, geosearch,
  handle_geosearch,
}
use make_your_own_redis_go.Serve.Untouched.{Q, Q-IsQuiet, Q-IsBlind}
use make_your_own_redis_go.Serve.Others.{IsBlind}

-- Every sorted set of the server is indexed.
abbrev pub AllIndexed : Dict SortedSet → Type 0
AllIndexed d = Every IsIndexed d

abbrev pub Holds : World → Type 0
Holds w = Q AllIndexed w

pub Holds-IsQuiet : IsQuiet Holds
Holds-IsQuiet = Q-IsQuiet AllIndexed

pub Holds-IsBlind : IsBlind Holds
Holds-IsBlind = Q-IsBlind AllIndexed

ruleset rules = (quiet_rules, Holds-IsQuiet)

Keeps-set_zset : (key : Bytes) (z : SortedSet) → IsIndexed z → Keeps Holds (set_zset key z)
unfolding set_zset
Keeps-set_zset key z i = record { at = λ w h. Every-store IsIndexed key z w.server.zsets i h }

-- The continuation knows that the set it is given is indexed.
Keeps-load :
    {B : Type 0} (key : Bytes) (f : Option SortedSet → Handler B)
    → ((o : Option SortedSet) → ((z : SortedSet) → o ≡ some z → IsIndexed z) → Keeps Holds (f o))
    → Keeps Holds (gets (λ s. load key s.zsets) >>= f)
Keeps-load key f k = record { at = λ w h. (k (load key w.server.zsets) (h key)).at w h }

Keeps-load_or :
    {B : Type 0} (key : Bytes) (f : SortedSet → Handler B)
    → ((z : SortedSet) → IsIndexed z → Keeps Holds (f z))
    → Keeps Holds (gets (λ s. load_or key new_set s.zsets) >>= f)
Keeps-load_or key f k = record {
  at = λ w h.
      (k (load_or key new_set w.server.zsets)
          (Every-load_or IsIndexed key new_set w.server.zsets IsIndexed-new_set h)).at
        w h;
}

Keeps-lock : (key : Bytes) (z : SortedSet) → IsIndexed z → Keeps Holds (lock key z)
unfolding lock
Keeps-lock key z i = search (rules, Keeps-set_zset)

Keeps-rlock : (key : Bytes) (z : SortedSet) → IsIndexed z → Keeps Holds (rlock key z)
unfolding rlock
Keeps-rlock key z i = search (rules, Keeps-set_zset)

Keeps-add_to_sorted_set :
    (key name : Bytes) (score : Float64) → Keeps Holds (add_to_sorted_set key name score)
unfolding add_to_sorted_set
Keeps-add_to_sorted_set key name score =
    search (rules, Keeps-load_or, Keeps-lock, Keeps-set_zset, add_element-IsIndexed) depth 9

pub Keeps-handle_zadd : (lib : Library) (conn : Conn) → Keeps Holds (handle_zadd lib conn)
unfolding handle_zadd
Keeps-handle_zadd lib conn = search (rules, Keeps-add_to_sorted_set) depth 9

Keeps-rank_reply :
    (conn : Conn) (key : Bytes) (z : SortedSet) (r : Option ℕ)
    → IsIndexed z
    → Keeps Holds (rank_reply conn key z r)
unfolding rank_reply
Keeps-rank_reply conn key z none i = Keeps-set_zset key z i
Keeps-rank_reply conn key z (some rank) i = search rules

-- What `load` found, if anything, is indexed.
abbrev Found : Option SortedSet → Type 0
Found o = (z : SortedSet) → o ≡ some z → IsIndexed z

Keeps-zrank :
    (conn : Conn) (key name : Bytes) (o : Option SortedSet)
    → Found o
    → Keeps Holds (zrank conn key name o)
unfolding zrank
Keeps-zrank conn key name none i = search rules
Keeps-zrank conn key name (some z) i =
    let indexed : IsIndexed z = i z refl in search (rules, Keeps-rlock, Keeps-rank_reply)

pub Keeps-handle_zrank : (conn : Conn) → Keeps Holds (handle_zrank conn)
unfolding handle_zrank
Keeps-handle_zrank conn = search (rules, Keeps-load, Keeps-zrank) depth 9

Keeps-range_reply :
    (conn : Conn) (key : Bytes) (z : SortedSet) (n : ℕ) (r : Option Bytes)
    → IsIndexed z
    → Keeps Holds (range_reply conn key z n r)
unfolding range_reply
Keeps-range_reply conn key z n none i = search rules
Keeps-range_reply conn key z n (some names) i = search (rules, Keeps-set_zset)

Keeps-zrange_locked :
    (conn : Conn) (key : Bytes) (z : SortedSet) (i j : ℤ)
    → IsIndexed z
    → Keeps Holds (zrange_locked conn key z i j)
unfolding zrange_locked
Keeps-zrange_locked conn key z i j indexed = search (rules, Keeps-range_reply)

Keeps-zrange :
    (conn : Conn) (key : Bytes) (i j : ℤ) (o : Option SortedSet)
    → Found o
    → Keeps Holds (zrange conn key i j o)
unfolding zrange
Keeps-zrange conn key i j none found = search rules
Keeps-zrange conn key i j (some z) found =
    let indexed : IsIndexed z = found z refl in search (rules, Keeps-rlock, Keeps-zrange_locked)

pub Keeps-handle_zrange : (conn : Conn) → Keeps Holds (handle_zrange conn)
unfolding handle_zrange
Keeps-handle_zrange conn = search (rules, Keeps-load, Keeps-zrange) depth 9

Keeps-zcard :
    (conn : Conn) (key : Bytes) (o : Option SortedSet) → Found o → Keeps Holds (zcard conn key o)
unfolding zcard
Keeps-zcard conn key none found = search rules
Keeps-zcard conn key (some z) found =
    let indexed : IsIndexed z = found z refl in search (rules, Keeps-rlock, Keeps-set_zset)

pub Keeps-handle_zcard : (conn : Conn) → Keeps Holds (handle_zcard conn)
unfolding handle_zcard
Keeps-handle_zcard conn = search (rules, Keeps-load, Keeps-zcard) depth 9

Keeps-score_reply :
    (lib : Library) (conn : Conn) (key : Bytes) (z : SortedSet) (r : Option Float64)
    → IsIndexed z
    → Keeps Holds (score_reply lib conn key z r)
unfolding score_reply
Keeps-score_reply lib conn key z none i = search rules
Keeps-score_reply lib conn key z (some score) i = search (rules, Keeps-set_zset)

Keeps-zscore :
    (lib : Library) (conn : Conn) (key name : Bytes) (o : Option SortedSet)
    → Found o
    → Keeps Holds (zscore lib conn key name o)
unfolding zscore
Keeps-zscore lib conn key name none found = search rules
Keeps-zscore lib conn key name (some z) found =
    let indexed : IsIndexed z = found z refl in search (rules, Keeps-rlock, Keeps-score_reply)

pub Keeps-handle_zscore : (lib : Library) (conn : Conn) → Keeps Holds (handle_zscore lib conn)
unfolding handle_zscore
Keeps-handle_zscore lib conn = search (rules, Keeps-load, Keeps-zscore) depth 9

Keeps-zrem :
    (conn : Conn) (key name : Bytes) (o : Option SortedSet)
    → Found o
    → Keeps Holds (zrem conn key name o)
unfolding zrem
Keeps-zrem conn key name none found = search rules
Keeps-zrem conn key name (some z) found =
    let indexed : IsIndexed z = found z refl in
    search (rules, Keeps-lock, Keeps-set_zset, remove_element-IsIndexed) depth 9

pub Keeps-handle_zrem : (conn : Conn) → Keeps Holds (handle_zrem conn)
unfolding handle_zrem
Keeps-handle_zrem conn = search (rules, Keeps-load, Keeps-zrem) depth 9

module _ (lib : Library) (m : Arithmetic) (formats : Formats) (conn : Conn) where
  Keeps-add_location :
      (key name : Bytes) (lon lat : Float64)
      → Keeps Holds (add_location lib m formats conn key name lon lat)
  unfolding add_location
  Keeps-add_location key name lon lat = search (rules, Keeps-add_to_sorted_set) depth 9

  pub Keeps-handle_geoadd : Keeps Holds (handle_geoadd lib m formats conn)
  unfolding handle_geoadd
  Keeps-handle_geoadd = search (rules, Keeps-add_location) depth 12

  Keeps-geopos :
      (key : Bytes) (names : List Bytes) (o : Option SortedSet)
      → Found o
      → Keeps Holds (geopos lib m formats conn key names o)
  unfolding geopos
  Keeps-geopos key names none found = search rules
  Keeps-geopos key names (some z) found =
      let indexed : IsIndexed z = found z refl in
      search (rules, Keeps-rlock, Keeps-set_zset) depth 9

  pub Keeps-handle_geopos : Keeps Holds (handle_geopos lib m formats conn)
  unfolding handle_geopos
  Keeps-handle_geopos = search (rules, Keeps-load, Keeps-geopos) depth 9

  Keeps-geodist :
      (key a b : Bytes) (o : Option SortedSet)
      → Found o
      → Keeps Holds (geodist lib m formats conn key a b o)
  unfolding geodist
  Keeps-geodist key a b none found = search rules
  Keeps-geodist key a b (some z) found =
      let indexed : IsIndexed z = found z refl in
      search (rules, Keeps-rlock, Keeps-set_zset) depth 9

  pub Keeps-handle_geodist : Keeps Holds (handle_geodist lib m formats conn)
  unfolding handle_geodist
  Keeps-handle_geodist = search (rules, Keeps-load, Keeps-geodist) depth 9

  Keeps-geosearch :
      (key : Bytes) (centre : Coordinates) (radius : Float64) (o : Option SortedSet)
      → Found o
      → Keeps Holds (geosearch lib m formats conn key centre radius o)
  unfolding geosearch
  Keeps-geosearch key centre radius none found = search rules
  Keeps-geosearch key centre radius (some z) found =
      let indexed : IsIndexed z = found z refl in
      search (rules, Keeps-rlock, Keeps-set_zset) depth 9

  pub Keeps-handle_geosearch : Keeps Holds (handle_geosearch lib m formats conn)
  unfolding handle_geosearch
  Keeps-handle_geosearch = search (rules, Keeps-load, Keeps-geosearch) depth 15
