-- ===== src/Geo/Depth.antt =====
-- geocoding.go: the depth at which Get9BoxRanges searches.
use make_your_own_redis_go.Shared.{
  ℕ, zero, suc, ◌≤◌, ◌<◌, ◌≡◌, ◌⊎◌, refl, true, false, arith, ltb, inl, inr, Bool-cases,
}
use make_your_own_redis_go.Float.{Float64}
use make_your_own_redis_go.Geo.{Arithmetic, wide_enough, choose_depth}

-- `d` is the depth of the smallest cells, of depth `n` at most, that are no smaller than the radius,
-- or 1 if there are none.
pub record IsDeepest (m : Arithmetic) (n : ℕ) (cos_lat radius : Float64) (d : ℕ) : Type 0 where
  pub least : 1 ≤ d
  pub most : d ≤ n
  pub wide : (d ≡ 1) ⊎ (wide_enough m cos_lat radius d ≡ true)
  pub deeper : (k : ℕ) → d < k → k ≤ n → wide_enough m cos_lat radius k ≡ false

-- The loop of Get9BoxRanges, started at a depth of at least 1, ends at a depth between 1 and the
-- start. A cell there is at least as wide and as high as the radius, unless the depth is 1; and no
-- deeper cell, down to the start, is.
pub choose_depth-IsDeepest :
    (m : Arithmetic) (n : ℕ) (cos_lat radius : Float64)
    → IsDeepest m (suc n) cos_lat radius (choose_depth m (suc n) cos_lat radius)
unfolding choose_depth
choose_depth-IsDeepest m zero cos_lat radius = record {
  least = omega arith;
  most = omega arith;
  wide = inl refl;
  deeper = λ k lt le. absurd (omega arith);
}
choose_depth-IsDeepest m (suc n) cos_lat radius =
    elim (Bool-cases (wide_enough m cos_lat radius (suc (suc n)))) [
      | inl wide' ↦ rw wide' (record {
        least = omega arith;
        most = omega arith;
        wide = inr wide';
        deeper = λ k lt le. absurd (omega arith);
      })
      | inr small ↦ rw small (widen_bound small (choose_depth-IsDeepest m n cos_lat radius))
    ]
  where
    last_one :
        {k : ℕ}
        → wide_enough m cos_lat radius (suc (suc n)) ≡ false
        → k ≡ suc (suc n)
        → wide_enough m cos_lat radius k ≡ false
    last_one small' e = rw e small'

    widen_bound :
        {d : ℕ}
        → wide_enough m cos_lat radius (suc (suc n)) ≡ false
        → IsDeepest m (suc n) cos_lat radius d
        → IsDeepest m (suc (suc n)) cos_lat radius d
    widen_bound {d} small' found =
        let bound = found.most in
        record {
          least = found.least;
          most = omega arith;
          wide = found.wide;
          deeper = λ k lt le. elim (Bool-cases (ltb k (suc (suc n)))) [
            | inl lower ↦ found.deeper k lt (ground arith)
            | inr top ↦ last_one small' (ground arith)
          ];
        }
