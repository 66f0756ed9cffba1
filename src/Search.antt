-- ===== src/Search.antt =====
-- sort.Search of Go's library: the binary search that utils.go and handlers.go call.
pub mod Least
use make_your_own_redis_go.Shared.{ℕ, zero, suc, ◌+◌, ◌/◌, Bool, true, false, if◌then◌else◌, ltb}

-- `for i < j { h := (i+j)/2; if !f(h) { i = h+1 } else { j = h } }`, on fuel.
unfoldable pub bisect : ℕ → (ℕ → Bool) → ℕ → ℕ → ℕ
bisect zero f i j = i
bisect (suc fuel) f i j =
    let h = (i + j) / 2 in
    let right = bisect fuel f (h + 1) j in
    let left = bisect fuel f i h in if ltb i j then (if f h then left else right) else i

-- sort.Search(n, f): the range shrinks in each round, so `n` rounds are enough.
unfoldable pub search_index : ℕ → (ℕ → Bool) → ℕ
unfolding bisect
search_index n f = bisect (suc n) f 0 n
