-- ===== src/Commands/Lists/Range.antt =====
-- LRANGE and LPOP against slices of the list.
use make_your_own_redis_go.Shared.{
  ℕ, zero, suc, ◌+◌, ◌-◌, ◌≤◌, ◌<◌, ◌≡◌, refl, min, List, [], ◌∷◌, ◌++◌, none, some, Bytes, crlf,
  arith, if◌then◌else◌, leb, length, get_elem?, take, drop,
}
use make_your_own_redis_go.Shared.Int.{ℤ, pos, negsuc, ◌+ℤ◌, ◌-ℤ◌, pos_part, min_ℤ, max_ℤ}
use make_your_own_redis_go.Text.{itoa_ℤ}
use make_your_own_redis_go.Resp.{bulks}
use make_your_own_redis_go.Commands.Lists.{
  at_index, put_bulk, range_bulks, clamp_index, with_header, lrange, pop_front,
}

-- The index that LRANGE means in a list of `len` elements, with negative ones counted from the end and
-- all of them cut to the list.
abbrev pub index_of : ℤ → ℕ → ℕ
index_of (pos i) len = min i (len - 1)
index_of (negsuc n) len = len - suc n

clamp_index-index_of : (i : ℤ) (len : ℕ) → 0 < len → clamp_index i len ≡ pos (index_of i len)
unfolding clamp_index min_ℤ max_ℤ ◌+ℤ◌ ◌-ℤ◌
clamp_index-index_of (pos i) len h = ground arith
clamp_index-index_of (negsuc n) len h = ground arith

index_of-lt : (i : ℤ) (len : ℕ) → 0 < len → index_of i len < len
index_of-lt (pos i) len h = omega arith
index_of-lt (negsuc n) len h = omega arith

-- The element at an index stands in front of what is dropped behind it.
bulks-drop :
    (es : List Bytes) (i n : ℕ)
    → i < length es
    → put_bulk (get_elem? es i) (some (bulks (take n (drop (suc i) es))))
      ≡ some (bulks (take (suc n) (drop i es)))
unfolding put_bulk bulks
bulks-drop [] i n h = absurd (omega arith)
bulks-drop (e ∷ es) zero n h = refl
bulks-drop (e ∷ es) (suc i) n h = bulks-drop es i n (omega arith)

next_index : (i : ℕ) → pos i +ℤ pos 1 ≡ pos (suc i)
unfolding ◌+ℤ◌
next_index i = ground arith

range_bulks-slice :
    (n i : ℕ) (es : List Bytes)
    → i + n ≤ length es
    → range_bulks n (pos i) es ≡ some (bulks (take n (drop i es)))
unfolding range_bulks at_index
range_bulks-slice zero i es h = unfold bulks in refl
range_bulks-slice (suc n) i es h =
    rw (next_index i, range_bulks-slice n (suc i) es (omega arith))
      (bulks-drop es i n (omega arith))

count_of : (a b : ℕ) → pos_part (pos b -ℤ pos a +ℤ pos 1) ≡ b + 1 - a
unfolding ◌+ℤ◌ ◌-ℤ◌
count_of a b = ground arith

-- LRANGE of a list that is not empty, whatever the two indices: the header counts from the first index
-- to the second, and the elements are the slice between the two, both cut to the list.
pub lrange-slice :
    (es : List Bytes) (i j : ℤ)
    → 0 < length es
    → let a = index_of i (length es) in
      let b = index_of j (length es) in
      lrange es i j
      ≡ some (
          b'*'
          ∷ (itoa_ℤ (pos b -ℤ pos a +ℤ pos 1) ++ (crlf ++ bulks (take (b + 1 - a) (drop a es)))))
unfolding lrange with_header
lrange-slice es i j h = rw (
  clamp_index-index_of i (length es) h,
  clamp_index-index_of j (length es) h,
  count_of (index_of i (length es)) (index_of j (length es)),
  range_bulks-slice (index_of j (length es) + 1 - index_of i (length es)) (index_of i (length es))
      es (omega (arith, index_of-lt i (length es) h, index_of-lt j (length es) h)),
)

-- The loop of LPOP takes the first elements off in their order and leaves the others, and it runs past
-- the end of the list exactly when the count is greater than the length.
pub pop_front-take :
    (n : ℕ) (es : List Bytes)
    → pop_front n es ≡ (if leb n (length es) then some (take n es, drop n es) else none)
unfolding pop_front
pop_front-take zero es = ground arith
pop_front-take (suc n) [] = ground arith
pop_front-take (suc n) (e ∷ es) = ground (arith, pop_front-take n es)
