-- ===== src/Geo/Nine.antt =====
-- The ranges of Get9BoxRanges: together they hold the scores of the nine cells round a cell.
use native.Mathlib.Decide.{dec_lt}
use make_your_own_redis_go.Shared.{
  ℕ, zero, suc, ◌+◌, ◌-◌, ◌/◌, ◌^◌, ◌<◌, ◌≤◌, ◌≡◌, sym, ap, ◌∙◌, ◌⊎◌, inl, inr, ◌↔◌, List, [], ◌∷◌,
  ◌++◌, arith,
}
use make_your_own_redis_go.Shared.Int.{ℤ, pos, negsuc, ◌+ℤ◌, pos_part, neg_part}
use make_your_own_redis_go.Geo.Bits.{one_at_least}
use make_your_own_redis_go.Geo.{ScoreRange, interleave, box, cell_range, column, nine_boxes}
use make_your_own_redis_go.Geo.Boxes.{high-lt, into_box, out_of_box}

-- A score lies in one of the ranges.
unfoldable pub InRanges : ℕ → List ScoreRange → Type 0
InRanges c [] = ⊥
InRanges c (r ∷ rs) = ((r.low ≤ c) × (c ≤ r.high)) ⊎ InRanges c rs

-- Two numbers that differ by one at most.
abbrev pub IsBeside : ℕ → ℕ → Type 0
IsBeside g h = (h ≤ g + 1) × (g ≤ h + 1)

InRanges-append :
    (c : ℕ) (xs ys : List ScoreRange) → InRanges c (xs ++ ys) ↔ (InRanges c xs ⊎ InRanges c ys)
unfolding InRanges
InRanges-append c [] ys = (λ h. inr h, λ h. elim h [ inl h ↦ absurd h | inr h ↦ h ])
InRanges-append c (r ∷ xs) ys = ground (arith, InRanges-append c xs ys)

pos_inj : {a b : ℕ} → pos a ≡ pos b → a ≡ b
pos_inj e = ap pos_part e

-- The neighbours of a number.
one_less : (g : ℕ) → pos (suc g) +ℤ negsuc 0 ≡ pos g
unfolding ◌+ℤ◌
one_less g = ground arith

one_more : (g : ℕ) → pos g +ℤ pos 1 ≡ pos (g + 1)
unfolding ◌+ℤ◌
one_more g = ground arith

minus_one : (g h : ℕ) → (pos g +ℤ negsuc 0 ≡ pos h) ↔ (g ≡ h + 1)
unfolding ◌+ℤ◌
minus_one zero h = (λ e. absurd (omega (arith, ap neg_part e)), λ e. absurd (omega arith))
minus_one (suc g) h =
    (λ e. omega (arith, pos_inj (sym (one_less g) ∙ e)), λ e. one_less g ∙ ap pos (omega arith))

plus_one : (g h : ℕ) → (pos g +ℤ pos 1 ≡ pos h) ↔ (h ≡ g + 1)
plus_one g h =
    (λ e. omega (arith, pos_inj (sym (one_more g) ∙ e)), λ e. one_more g ∙ ap pos (omega arith))

itself : (g h : ℕ) → (pos g ≡ pos h) ↔ (g ≡ h)
itself g h = (λ e. pos_inj e, λ e. ap pos e)

module _ (s d x y : ℕ) (all : s + d ≡ 26) (p : x < 2 ^ 26) (q : y < 2 ^ 26) where
  on_grid :
      (a b : ℕ)
      → a < 2 ^ d
      → b < 2 ^ d
      → InRanges (interleave x y) (box s (pos a) (pos b))
        ↔ ((pos a ≡ pos (x / 2 ^ s)) × (pos b ≡ pos (y / 2 ^ s)))
  unfolding InRanges box
  on_grid a b less less' = (
    λ h. elim h [
      | inl (low', high') ↦
          let e = out_of_box s d a b all less less' x y p q low' high' in
          (ap pos (sym e.0), ap pos (sym e.1))
      | inr none ↦ absurd none
    ],
    λ e. inl (into_box s d a b all less less' x y p q (sym (pos_inj e.0)) (sym (pos_inj e.1))),
  )

  on_or_off : (a b : ℕ) → ((a < 2 ^ d) × (b < 2 ^ d)) ⊎ ((2 ^ d ≤ a) ⊎ (2 ^ d ≤ b))
  on_or_off a b = elim (dec_lt a (2 ^ d)) [
    | yes less ↦ elim (dec_lt b (2 ^ d)) [
      | yes less' ↦ inl (less, less')
      | no over ↦ inr (inr (omega arith))
    ]
    | no over ↦ inr (inl (omega arith))
  ]

  on_grid-box :
      (a b : ℕ)
      → a < 2 ^ d
      → b < 2 ^ d
      → cell_range s (2 ^ d - 1) (pos a) (pos b) ≡ box s (pos a) (pos b)
  unfolding cell_range
  on_grid-box a b less less' = ground (arith, one_at_least d)

  off_grid-box :
      (a b : ℕ) → (2 ^ d ≤ a) ⊎ (2 ^ d ≤ b) → cell_range s (2 ^ d - 1) (pos a) (pos b) ≡ []
  unfolding cell_range
  off_grid-box a b over = ground (arith, one_at_least d)

  below_grid-box : (nx : ℤ) (b : ℕ) → cell_range s (2 ^ d - 1) nx (negsuc b) ≡ []
  unfolding cell_range
  below_grid-box nx b = ground (arith, one_at_least d)

  left_of_grid-box : (a : ℕ) (ny : ℤ) → cell_range s (2 ^ d - 1) (negsuc a) ny ≡ []
  unfolding cell_range
  left_of_grid-box a ny = ground (arith, one_at_least d)

  not_negative : (a n : ℕ) → ¬ (negsuc a ≡ pos n)
  not_negative a n e = let parts : suc a ≡ 0 = ap neg_part e in omega arith

  off_grid :
      (a b : ℕ)
      → (2 ^ d ≤ a) ⊎ (2 ^ d ≤ b)
      → ¬ ((pos a ≡ pos (x / 2 ^ s)) × (pos b ≡ pos (y / 2 ^ s)))
  off_grid a b over (e, f) =
      ground (arith, high-lt s d x all p, high-lt s d y all q, pos_inj e, pos_inj f)

  -- The range of one cell, which is none for a cell beyond the grid.
  cell_range-In :
      (nx ny : ℤ)
      → InRanges (interleave x y) (cell_range s (2 ^ d - 1) nx ny)
        ↔ ((nx ≡ pos (x / 2 ^ s)) × (ny ≡ pos (y / 2 ^ s)))
  unfolding InRanges
  cell_range-In (negsuc a) ny =
      rw (left_of_grid-box a ny) (λ h. absurd h, λ e. absurd (not_negative a (x / 2 ^ s) e.0))
  cell_range-In (pos a) (negsuc b) =
      rw (below_grid-box (pos a) b) (λ h. absurd h, λ e. absurd (not_negative b (y / 2 ^ s) e.1))
  cell_range-In (pos a) (pos b) = elim (on_or_off a b) [
    | inl (less, less') ↦ rw (on_grid-box a b less less') (on_grid a b less less')
    | inr over ↦ rw (off_grid-box a b over) (λ h. absurd h, λ e. absurd (off_grid a b over e))
  ]

  column-In :
      (nx : ℤ) (gy : ℕ)
      → InRanges (interleave x y) (column s (2 ^ d - 1) nx gy)
        ↔ ((nx ≡ pos (x / 2 ^ s)) × IsBeside gy (y / 2 ^ s))
  unfolding column
  column-In nx gy =
      let code = interleave x y in
      let max_grid = 2 ^ d - 1 in
      let hy = y / 2 ^ s in
      ground (
        arith,
        InRanges-append code (cell_range s max_grid nx (pos gy +ℤ negsuc 0))
            (cell_range s max_grid nx (pos gy) ++ cell_range s max_grid nx (pos gy +ℤ pos 1)),
        InRanges-append code (cell_range s max_grid nx (pos gy))
            (cell_range s max_grid nx (pos gy +ℤ pos 1)),
        cell_range-In nx (pos gy +ℤ negsuc 0),
        cell_range-In nx (pos gy),
        cell_range-In nx (pos gy +ℤ pos 1),
        minus_one gy hy,
        itself gy hy,
        plus_one gy hy,
      )

-- At a depth of at most 26, and for two numbers of 26 bits: the score that interleaves them lies in one
-- of the ranges round a cell exactly if their cell differs from it by one at most in both directions.
pub nine_boxes-IsBeside :
    (depth gx gy x y : ℕ)
    → depth ≤ 26
    → x < 2 ^ 26
    → y < 2 ^ 26
    → InRanges (interleave x y) (nine_boxes depth gx gy)
      ↔ (IsBeside gx (x / 2 ^ (26 - depth)) × IsBeside gy (y / 2 ^ (26 - depth)))
unfolding nine_boxes
nine_boxes-IsBeside depth gx gy x y le p q =
    let s = 26 - depth in
    let max_grid = 2 ^ depth - 1 in
    let one_column = column-In s depth x y (omega arith) p q in
    let code = interleave x y in
    let hx = x / 2 ^ s in
    ground (
      arith,
      InRanges-append code (column s max_grid (pos gx +ℤ negsuc 0) gy)
          (column s max_grid (pos gx) gy ++ column s max_grid (pos gx +ℤ pos 1) gy),
      InRanges-append code (column s max_grid (pos gx) gy) (column s max_grid (pos gx +ℤ pos 1) gy),
      one_column (pos gx +ℤ negsuc 0) gy,
      one_column (pos gx) gy,
      one_column (pos gx +ℤ pos 1) gy,
      minus_one gx hx,
      itself gx hx,
      plus_one gx hx,
    )
