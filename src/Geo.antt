-- ===== src/Geo.antt =====
-- geocoding.go: the integer part, on words of 32 and 64 bits, and the parts that compute with floats,
-- whose arithmetic is taken from Go through `Arithmetic`.
pub mod Bits
pub mod Blocks
pub mod Merged
pub mod Halves
pub mod Spread
pub mod Interleave
pub mod Spaced
pub mod Boxes
pub mod Nine
pub mod Depth
use Prim.Native.Nat.{bit_and, bit_or}
use make_your_own_redis_go.Shared.{
  ℕ, zero, suc, ◌+◌, ◌-◌, ◌*◌, ◌/◌, ◌%◌, ◌^◌, Bool, ◌&&◌, ◌||◌, List, [], ◌∷◌, ◌++◌, Bytes, codes,
  if◌then◌else◌,
}
use make_your_own_redis_go.Shared.Int.{ℤ, pos, negsuc, ◌+ℤ◌, ltb_ℤ, pos_part}
use make_your_own_redis_go.Float.{Float64, float_lt, float_le}

-- Go's arithmetic on float64 and the functions of package math. `literal` is the value that the
-- compiler gives to a constant, by its decimal text; `to_uint32` and `to_uint64` are conversions.
pub record Arithmetic : Type 0 where
  pub add : Float64 → Float64 → Float64
  pub sub : Float64 → Float64 → Float64
  pub mul : Float64 → Float64 → Float64
  pub div : Float64 → Float64 → Float64
  pub sin : Float64 → Float64
  pub cos : Float64 → Float64
  pub asin : Float64 → Float64
  pub sqrt : Float64 → Float64
  pub of_uint : ℕ → Float64
  pub to_uint32 : Float64 → ℕ
  pub to_uint64 : Float64 → ℕ
  pub literal : Bytes → Float64

pub record Coordinates : Type 0 where
  pub latitude : Float64
  pub longitude : Float64

pub record ScoreRange : Type 0 where
  pub low : ℕ
  pub high : ℕ

-- x << k on uint64, and x >> k.
unfoldable pub shl : ℕ → ℕ → ℕ
shl x k = x * 2 ^ k % 2 ^ 64

unfoldable pub shr : ℕ → ℕ → ℕ
shr x k = x / 2 ^ k

-- One line of the two functions below: `(r | (r << k)) & mask` and `(r | (r >> k)) & mask`.
unfoldable pub widen : ℕ → ℕ → ℕ → ℕ
unfolding shl
widen k mask r = bit_and (bit_or r (shl r k)) mask

unfoldable pub narrow : ℕ → ℕ → ℕ → ℕ
unfolding shr
narrow k mask r = bit_and (bit_or r (shr r k)) mask

-- spreadInt32ToInt64
unfoldable pub spread : ℕ → ℕ
unfolding widen
spread v = widen 1 0x5555555555555555 (
    widen 2 0x3333333333333333
      (widen 4 0x0f0f0f0f0f0f0f0f (widen 8 0x00ff00ff00ff00ff (widen 16 0x0000ffff0000ffff v))))

-- compactInt64ToInt32
unfoldable pub compact : ℕ → ℕ
unfolding narrow
compact v =
    narrow 16 0x00000000ffffffff (
      narrow 8 0x0000ffff0000ffff (
        narrow 4 0x00ff00ff00ff00ff (
          narrow 2 0x0f0f0f0f0f0f0f0f
            (narrow 1 0x3333333333333333 (bit_and v 0x5555555555555555)))))
    % 2 ^ 32

unfoldable pub interleave : ℕ → ℕ → ℕ
unfolding spread shl
interleave x y = bit_or (spread x) (shl (spread y) 1)

-- The integers that Decode takes out of a score: the latitude's number, then the longitude's.
unfoldable pub grid_numbers : ℕ → ℕ × ℕ
unfolding compact shr
grid_numbers code = (compact code, compact (shr code 1))

unfoldable pub box : ℕ → ℤ → ℤ → List ScoreRange
unfolding interleave
box shift nx ny =
    let low' = shl (interleave (pos_part nx) (pos_part ny)) (2 * shift) in
    (record { low = low'; high = bit_or low' (shl 1 (2 * shift) - 1) }) ∷ []

-- The body of the inner loop of Get9BoxRanges: a cell beyond the grid is passed over.
unfoldable pub cell_range : ℕ → ℕ → ℤ → ℤ → List ScoreRange
unfolding box
cell_range shift max_grid nx ny =
    if ltb_ℤ nx (pos 0) || ltb_ℤ (pos max_grid) nx || (ltb_ℤ ny (pos 0) || ltb_ℤ (pos max_grid) ny)
    then []
    else box shift nx ny

-- dy from -1 to 1, then dx from -1 to 1.
unfoldable pub column : ℕ → ℕ → ℤ → ℕ → List ScoreRange
unfolding cell_range
column shift max_grid nx grid_y =
    cell_range shift max_grid nx (pos grid_y +ℤ negsuc 0)
    ++ (cell_range shift max_grid nx (pos grid_y)
        ++ cell_range shift max_grid nx (pos grid_y +ℤ pos 1))

-- The nine cells round (gridX, gridY) at a depth of at most 26.
unfoldable pub nine_boxes : ℕ → ℕ → ℕ → List ScoreRange
unfolding column
nine_boxes depth grid_x grid_y =
    let shift = 26 - depth in
    let max_grid = 2 ^ depth - 1 in
    column shift max_grid (pos grid_x +ℤ negsuc 0) grid_y
    ++ (column shift max_grid (pos grid_x) grid_y
        ++ column shift max_grid (pos grid_x +ℤ pos 1) grid_y)

module _ (m : Arithmetic) where
  open m use {add, sub, mul, div, sin, cos, asin, sqrt, of_uint, to_uint32, literal}

  unfoldable pub min_latitude : Float64
  min_latitude = literal (codes "-85.05112878")

  unfoldable pub min_longitude : Float64
  min_longitude = literal (codes "-180.0")

  unfoldable pub latitude_range : Float64
  latitude_range = literal (codes "170.10225756")

  unfoldable pub longitude_range : Float64
  longitude_range = literal (codes "360.0")

  unfoldable pub earth_radius : Float64
  earth_radius = literal (codes "6372797.560856")

  -- math.Pow(2, 26)
  unfoldable pub cells : Float64
  cells = literal (codes "67108864")

  -- math.Pi / 180, a constant.
  unfoldable pub radian : Float64
  radian = literal (codes "0.017453292519943295769236907684886127134428718885417254560971")

  -- One edge of a cell: `min + range*(float64(number)/2^26)`.
  unfoldable pub edge : Float64 → Float64 → ℕ → Float64
  unfolding cells
  edge low' extent n = add low' (mul extent (div (of_uint n) cells))

  -- convertGridNumbersToCoordinates; `number+1` is computed in uint32.
  unfoldable pub cell_centre : ℕ → ℕ → Coordinates
  unfolding edge min_latitude min_longitude latitude_range longitude_range
  cell_centre lat lon =
      let two = literal (codes "2") in
      record {
        latitude =
            div
              (add (edge min_latitude latitude_range lat)
                (edge min_latitude latitude_range ((lat + 1) % 2 ^ 32)))
              two;
        longitude =
            div
              (add (edge min_longitude longitude_range lon)
                (edge min_longitude longitude_range ((lon + 1) % 2 ^ 32)))
              two;
      }

  -- `math.Pow(2, 26) * (x - min) / range`
  unfoldable pub normalize : Float64 → Float64 → Float64 → Float64
  unfolding cells
  normalize x low' extent = div (mul cells (sub x low')) extent

  unfoldable pub encode : Float64 → Float64 → ℕ
  unfolding normalize interleave min_latitude min_longitude latitude_range longitude_range
  encode latitude longitude =
      interleave (to_uint32 (normalize latitude min_latitude latitude_range))
        (to_uint32 (normalize longitude min_longitude longitude_range))

  unfoldable pub decode : ℕ → Coordinates
  unfolding grid_numbers cell_centre
  decode code = cell_centre (grid_numbers code).0 (grid_numbers code).1

  -- GeoDistance
  unfoldable pub geo_distance : Coordinates → Coordinates → Float64
  unfolding radian earth_radius
  geo_distance a b =
      let two = literal (codes "2") in
      let v = sin (div (sub (mul b.longitude radian) (mul a.longitude radian)) two) in
      let lat1 = mul a.latitude radian in
      let lat2 = mul b.latitude radian in
      let u = sin (div (sub lat2 lat1) two) in
      let d = add (mul u u) (mul (mul (mul (cos lat1) (cos lat2)) v) v) in
      mul (literal (codes "12745595.121712")) (asin (sqrt d))

  -- The size of a cell at a depth: the extent in degrees, in metres.
  unfoldable pub cell_metres : Float64 → ℕ → Float64
  unfolding radian earth_radius
  cell_metres extent depth = mul (mul (div extent (of_uint (2 ^ depth))) radian) earth_radius

  -- The test that ends the loop of Get9BoxRanges.
  unfoldable pub wide_enough : Float64 → Float64 → ℕ → Bool
  unfolding cell_metres latitude_range
  wide_enough cos_lat radius depth =
      let width = mul (cell_metres (literal (codes "360")) depth) cos_lat in
      let height = cell_metres latitude_range depth in
      float_le radius width && float_le radius height

  -- `for depth > 1 { … depth-- }`
  unfoldable pub choose_depth : ℕ → Float64 → Float64 → ℕ
  unfolding wide_enough
  choose_depth zero cos_lat radius = zero
  choose_depth (suc zero) cos_lat radius = suc zero
  choose_depth (suc (suc n)) cos_lat radius =
      let shallower = choose_depth (suc n) cos_lat radius in
      if wide_enough cos_lat radius (suc (suc n)) then suc (suc n) else shallower

  -- Get9BoxRanges
  unfoldable pub get_9_box_ranges : Float64 → Float64 → Float64 → List ScoreRange
  unfolding choose_depth normalize nine_boxes
  get_9_box_ranges lat lon radius =
      let floor = literal (codes "0.01") in
      let c = cos (
        div
          (mul lat
            (literal (codes "3.14159265358979323846264338327950288419716939937510582097494459")))
          (literal (codes "180"))) in
      let cos_lat = if float_lt c floor then floor else c in
      let depth = choose_depth 26 cos_lat radius in
      let shift = 26 - depth in
      nine_boxes depth (shr (to_uint32 (normalize lon min_longitude longitude_range)) shift)
        (shr (to_uint32 (normalize lat min_latitude latitude_range)) shift)
