-- ===== src/Commands/Geo/Near.antt =====
-- handlers.go: what the loops of HandleGeoSearch collect.
use make_your_own_redis_go.Shared.{
  ℕ, zero, suc, ◌+◌, ◌≡◌, refl, ap, sym, ◌∙◌, subst, Bool, true, List, [], ◌∷◌, some, Bytes, beq,
  beq_iff, Bool-cases, inl, inr, get_elem?, drop, length, arith, leb, ltb,
}
use make_your_own_redis_go.Shared.Dict.{Dict, load, store, load-store}
use make_your_own_redis_go.Float.{Float64, float_le}
use make_your_own_redis_go.Search.{search_index}
use make_your_own_redis_go.Geo.{Arithmetic, Coordinates, ScoreRange, decode, geo_distance}
use make_your_own_redis_go.Server.{SortedSetElement, Library}
use make_your_own_redis_go.Commands.ZSets.{test_at}
use make_your_own_redis_go.Commands.Geo.{Formats, scan_range, scan_ranges}

module _ (lib : Library) (m : Arithmetic) (formats : Formats) (centre : Coordinates)
    (radius : Float64) where
  abbrev is_near : SortedSetElement → Bool
  is_near e = float_le (geo_distance m centre (decode m (m.to_uint64 e.score))) radius

  -- The order has an element of that name whose decoded score is within the radius.
  pub record IsNear (order : List SortedSetElement) (name : Bytes) : Type 0 where
    pub index : ℕ
    pub element : SortedSetElement
    pub stands : get_elem? order index ≡ some element
    pub named : element.name ≡ name
    pub near : is_near element ≡ true

  abbrev AllNear : List SortedSetElement → Dict Bool → Type 0
  AllNear order found = (k : Bytes) (b : Bool) → load k found ≡ some b → IsNear order k

  AllNear-store :
      (order : List SortedSetElement) (k : Bytes) (found : Dict Bool)
      → IsNear order k
      → AllNear order found
      → AllNear order (store k true found)
  AllNear-store order k found here h j b e = elim (Bool-cases (beq k j)) [
    | inl same ↦ subst (IsNear order) ((beq_iff k j).0 same) here
    | inr other ↦ h j b (ground (arith, load-store k j true found))
  ]

  scan_range-AllNear :
      (order : List SortedSetElement) (high : ℕ) (es : List SortedSetElement) (found : Dict Bool)
      → ((i : ℕ) (e : SortedSetElement)
          → get_elem? es i ≡ some e
          → (j : ℕ) × (get_elem? order j ≡ some e))
      → AllNear order found
      → AllNear order (scan_range lib m formats centre radius high es found)
  unfolding scan_range
  scan_range-AllNear order high [] found within h = h
  scan_range-AllNear order high (e ∷ es) found within h =
      elim (Bool-cases (ltb high (m.to_uint64 e.score))) [
        | inl above ↦ rw above h
        | inr below ↦ elim (Bool-cases (is_near e)) [
          | inl close ↦
              rw (below, close)
                (scan_range-AllNear order high es (store e.name true found) later (
                  AllNear-store order e.name found
                    (record {
                      index = (within 0 e refl).0;
                      element = e;
                      stands = (within 0 e refl).1;
                      named = refl;
                      near = close;
                    })
                    h))
          | inr far ↦ rw (below, far) (scan_range-AllNear order high es found later h)
        ]
      ]
    where
      later :
          (i : ℕ) (x : SortedSetElement)
          → get_elem? es i ≡ some x
          → (j : ℕ) × (get_elem? order j ≡ some x)
      later i x at = within (suc i) x at

  get_elem?-drop :
      (n i : ℕ) (xs : List SortedSetElement) → get_elem? (drop n xs) i ≡ get_elem? xs (n + i)
  get_elem?-drop zero i xs = ap (get_elem? xs) (omega arith)
  get_elem?-drop (suc n) i [] = refl
  get_elem?-drop (suc n) i (x ∷ xs) =
      let next : suc (n + i) ≡ suc n + i = omega arith in
      get_elem?-drop n i xs ∙ ap (get_elem? (x ∷ xs)) next

  scan_ranges_onward :
      (order : List SortedSetElement) (ranges : List ScoreRange) (found : Dict Bool)
      → AllNear order found
      → AllNear order (scan_ranges lib m formats centre radius order ranges found)
  unfolding scan_ranges
  scan_ranges_onward order [] found h = h
  scan_ranges_onward order (r ∷ rs) found h =
      let start =
        search_index (length order) (test_at (λ e. leb r.low (m.to_uint64 e.score)) order) in
      scan_ranges_onward order rs
        (scan_range lib m formats centre radius r.high (drop start order) found)
        (scan_range-AllNear order r.high (drop start order) found
          (λ i e at. (start + i, sym (get_elem?-drop start i order) ∙ at)) h)

  AllNear-nil : (order : List SortedSetElement) → AllNear order []
  unfolding load
  AllNear-nil order k b h = cc

  -- A name that the loops of GEOSEARCH collect, over any ranges of scores, stands in the order with a
  -- score whose decoded position is within the radius of the centre.
  pub scan_ranges-IsNear :
      (order : List SortedSetElement) (ranges : List ScoreRange) (name : Bytes) (b : Bool)
      → load name (scan_ranges lib m formats centre radius order ranges []) ≡ some b
      → IsNear order name
  scan_ranges-IsNear order ranges = scan_ranges_onward order ranges [] (AllNear-nil order)
