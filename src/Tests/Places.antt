-- ===== src/Tests/Places.antt =====
-- The theorems on the locations at concrete inputs.
use make_your_own_redis_go.Shared.{
  ◌+◌, ◌*◌, ◌^◌, ◌<◌, ◌↔◌, arith, ◌≡◌, refl, true, List, [], ◌∷◌, codes, some, beq,
}
use make_your_own_redis_go.Shared.Dict.{load, store}
use make_your_own_redis_go.Float.{float_le, float_lt, is_nan, order_key}
use make_your_own_redis_go.Search.{search_index}
use make_your_own_redis_go.Geo.{
  Arithmetic, Coordinates, ScoreRange, choose_depth, interleave, nine_boxes, encode, decode,
  normalize, cell_centre, geo_distance,
}
use make_your_own_redis_go.Geo.Interleave.{decode-encode}
use make_your_own_redis_go.Geo.Spaced.{spaced, interleave-spaced, interleave-lt}
use make_your_own_redis_go.Geo.Nine.{InRanges, IsBeside, nine_boxes-IsBeside}
use make_your_own_redis_go.Geo.Depth.{IsDeepest, choose_depth-IsDeepest}
use make_your_own_redis_go.Server.{SortedSetElement}
use make_your_own_redis_go.Commands.ZSets.{test_at}
use make_your_own_redis_go.Commands.Geo.{scan_range, scan_ranges}
use make_your_own_redis_go.Commands.Geo.Near.{IsNear, scan_ranges-IsNear}
use make_your_own_redis_go.Tests.{library, arithmetic, formats, low, high}

-- The loop started at depth 26, as Get9BoxRanges starts it.
choose_depth-IsDeepest_example :
    IsDeepest arithmetic 26 low high (choose_depth arithmetic 26 low high)
choose_depth-IsDeepest_example = choose_depth-IsDeepest arithmetic 25 low high

abbrev somewhere : Coordinates
somewhere = record { latitude = low; longitude = high }

abbrev places : List SortedSetElement
places =
    (record { name = codes "oslo"; score = low })
    ∷ (record { name = codes "paris"; score = high })
    ∷ []

abbrev whole : List ScoreRange
whole = (record { low = 0; high = 10 }) ∷ []

paris_found :
    load (codes "paris") (scan_ranges library arithmetic formats somewhere high places whole [])
    ≡ some true
unfolding scan_ranges scan_range load store beq geo_distance decode float_le search_index test_at
    float_lt is_nan order_key
paris_found = refl

scan_ranges-IsNear_example : IsNear library arithmetic formats somewhere high places (codes "paris")
scan_ranges-IsNear_example =
    scan_ranges-IsNear library arithmetic formats somewhere high places whole (codes "paris") true
      paris_found

-- The operations on floats as projections, so that the numbers of a cell are the bits of the floats.
abbrev projections : Arithmetic
projections = record arithmetic { mul = λ a b. b; to_uint32 = λ a. a }

decode-encode_example :
    decode projections (encode projections 37 59) ≡ cell_centre projections 37 59
unfolding normalize
decode-encode_example = decode-encode projections 37 59 (omega arith) (omega arith)

interleave-lt_example : interleave 37 0x3ffffff < 2 ^ 52
interleave-lt_example = interleave-lt 37 0x3ffffff (omega arith) (omega arith)

interleave-spaced_example : interleave 37 59 ≡ spaced 32 37 + 2 * spaced 32 59
interleave-spaced_example = interleave-spaced 37 59 (omega arith) (omega arith)

-- At depth 24 a cell has four numbers in each direction; 37 lies in cell 9, and 59 in cell 14.
nine_boxes-IsBeside_example :
    InRanges (interleave 37 59) (nine_boxes 24 10 13) ↔ (IsBeside 10 9 × IsBeside 13 14)
nine_boxes-IsBeside_example =
    nine_boxes-IsBeside 24 10 13 37 59 (omega arith) (omega arith) (omega arith)
