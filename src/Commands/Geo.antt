-- ===== src/Commands/Geo.antt =====
-- handlers.go: GEOADD, GEOPOS, GEODIST and GEOSEARCH, on the sorted sets of Commands/ZSets.
pub mod Near
use make_your_own_redis_go.Shared.{
  ℕ, Bool, true, ◌||◌, List, [], ◌∷◌, ◌++◌, Option, none, some, Bytes, codes, beq, if◌then◌else◌,
  length, drop, leb, ltb,
}
use make_your_own_redis_go.Shared.Dict.{Dict, load, store, keys}
use make_your_own_redis_go.Float.{Float64, float_lt, float_le}
use make_your_own_redis_go.Search.{search_index}
use make_your_own_redis_go.Resp.{bulk, bulks, array_header, integer, line}
use make_your_own_redis_go.Geo.{
  Arithmetic, Coordinates, ScoreRange, encode, decode, geo_distance, get_9_box_ranges,
}
use make_your_own_redis_go.Server.{Conn, SortedSet, SortedSetElement, Library}
use make_your_own_redis_go.Server.Handler.{
  Handler, nil_assertion, ◌>>=◌, ◌>>◌, fault, gets, read_arg, skip_line, say,
}
use make_your_own_redis_go.Commands.{rest_args}
use make_your_own_redis_go.Commands.ZSets.{add_to_sorted_set, rlock, set_zset, test_at}

-- What Go's library gives beyond `Library`: strconv.FormatFloat with 5 digits, and the verb %f.
pub record Formats : Type 0 where
  pub fixed5 : Float64 → Bytes
  pub verb_f : Float64 → Bytes

module _ (lib : Library) (m : Arithmetic) (formats : Formats) where
  -- The range checks of HandleGeoAdd, each with its error text.
  unfoldable pub add_location : Conn → Bytes → Bytes → Float64 → Float64 → Handler (Unit {0})
  add_location conn key name longitude latitude =
      if float_lt longitude (m.literal (codes "-180"))
        || float_lt (m.literal (codes "180")) longitude
      then say conn (line (codes "-ERR invalid longitude: " ++ formats.verb_f longitude))
      else if float_lt latitude (m.literal (codes "-85.05112878"))
          || float_lt (m.literal (codes "85.05112878")) latitude
      then say conn (line (codes "-ERR invalid latitude: " ++ formats.verb_f latitude))
      else do
        added ← add_to_sorted_set key name (m.of_uint (encode m latitude longitude))
        say conn (integer added)

  -- HandleGeoAdd
  unfoldable pub handle_geoadd : Conn → Handler (Unit {0})
  handle_geoadd conn = do
    key ← read_arg
    longitude ← read_arg
    latitude ← read_arg
    name ← read_arg
    add_location conn key name (lib.parse_float longitude) (lib.parse_float latitude)

  -- One member of GEOPOS, by its score.
  unfoldable pub position : Option Float64 → Bytes
  position none = codes "*-1\r\n"
  position (some score) =
      let c = decode m (m.to_uint64 score) in
      array_header 2 ++ (bulk (lib.format_float c.longitude) ++ bulk (lib.format_float c.latitude))

  unfoldable pub positions : Dict Float64 → List Bytes → Bytes
  positions d [] = []
  positions d (name ∷ names) = position (load name d) ++ positions d names

  unfoldable pub geopos : Conn → Bytes → List Bytes → Option SortedSet → Handler (Unit {0})
  geopos conn key names none = say conn (array_header (length names) ++ positions [] names)
  geopos conn key names (some z) = do
    rlock key z
    say conn (array_header (length names) ++ positions z.elements names)
    set_zset key z

  -- HandleGeoPos
  unfoldable pub handle_geopos : Conn → Handler (Unit {0})
  handle_geopos conn = do
    key ← read_arg
    names ← rest_args
    z ← gets (λ s. load key s.zsets)
    geopos conn key names z

  -- The score of a member that is missing is the zero value of the map.
  unfoldable pub score_or_zero : Option Float64 → Float64
  score_or_zero none = 0
  score_or_zero (some score) = score

  -- A set that is missing is a nil interface, and the assertion on it panics.
  unfoldable pub geodist : Conn → Bytes → Bytes → Bytes → Option SortedSet → Handler (Unit {0})
  geodist conn key name1 name2 none = fault nil_assertion
  geodist conn key name1 name2 (some z) = do
    rlock key z
    set_zset key z
    let a = decode m (m.to_uint64 (score_or_zero (load name1 z.elements)))
    let b = decode m (m.to_uint64 (score_or_zero (load name2 z.elements)))
    say conn (bulk (formats.fixed5 (geo_distance m a b)))

  -- HandleGeoDist
  unfoldable pub handle_geodist : Conn → Handler (Unit {0})
  handle_geodist conn = do
    key ← read_arg
    name1 ← read_arg
    name2 ← read_arg
    z ← gets (λ s. load key s.zsets)
    geodist conn key name1 name2 z

  -- The radius in metres.
  unfoldable pub in_metres : Float64 → Bytes → Float64
  in_metres radius unit =
      if beq unit (codes "km")
      then m.mul radius (m.literal (codes "1000"))
      else if beq unit (codes "mi")
      then m.mul radius (m.literal (codes "1609.34"))
      else if beq unit (codes "ft")
      then m.mul radius (m.literal (codes "0.3048"))
      else radius

  -- The inner loop of GEOSEARCH from an element on: names whose score is in the range, up to the first
  -- score above it, and whose distance fits.
  unfoldable pub scan_range :
      Coordinates → Float64 → ℕ → List SortedSetElement → Dict Bool → Dict Bool
  scan_range centre radius high [] found = found
  scan_range centre radius high (e ∷ es) found =
      let score = m.to_uint64 e.score in
      let near = float_le (geo_distance m centre (decode m score)) radius in
      let rest =
        scan_range centre radius high es (if near then store e.name true found else found) in
      if ltb high score then found else rest

  unfoldable pub scan_ranges :
      Coordinates → Float64 → List SortedSetElement → List ScoreRange → Dict Bool → Dict Bool
  scan_ranges centre radius order [] found = found
  scan_ranges centre radius order (r ∷ rs) found =
      let start =
        search_index (length order) (test_at (λ e. leb r.low (m.to_uint64 e.score)) order) in
      scan_ranges centre radius order rs (scan_range centre radius r.high (drop start order) found)

  unfoldable pub geosearch :
      Conn → Bytes → Coordinates → Float64 → Option SortedSet → Handler (Unit {0})
  geosearch conn key centre radius none = say conn (codes "*0\r\n")
  geosearch conn key centre radius (some z) = do
    rlock key z
    let ranges = get_9_box_ranges m centre.latitude centre.longitude radius
    let names = keys (scan_ranges centre radius z.order ranges [])
    say conn (array_header (length names) ++ bulks names)
    set_zset key z

  -- HandleGeoSearch; the options FROMLONLAT and BYRADIUS are read and not looked at.
  unfoldable pub handle_geosearch : Conn → Handler (Unit {0})
  handle_geosearch conn = do
    key ← read_arg
    skip_line
    skip_line
    lon ← read_arg
    lat ← read_arg
    skip_line
    skip_line
    radius ← read_arg
    unit ← read_arg
    z ← gets (λ s. load key s.zsets)
    geosearch conn key (record { latitude = lib.parse_float lat; longitude = lib.parse_float lon })
        (in_metres (lib.parse_float radius) unit) z
