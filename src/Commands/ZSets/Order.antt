-- ===== src/Commands/ZSets/Order.antt =====
-- The order of a sorted set: AddToSortedSet's binary search and shift insert in order.
use make_your_own_redis_go.Shared.{
  ℕ, zero, suc, ◌<◌, ◌≡◌, refl, Bool, true, false, not, ◌&&◌, ◌||◌, List, [], ◌∷◌, arith,
  if◌then◌else◌, length, bytes_lt, bytes_lt_trans,
}
use make_your_own_redis_go.Float.{is_nan, float_eq, float_lt}
use make_your_own_redis_go.Search.Least.{Monotone, IsLeast, search_index-IsLeast}
use make_your_own_redis_go.Server.{SortedSetElement}
use make_your_own_redis_go.Commands.ZSets.{not_before, test_at, insert_at, place}

-- An element whose score is a number.
abbrev pub IsNumber : SortedSetElement → Type 0
IsNumber e = is_nan e.score ≡ false

-- By score, then by name: the order that the sorted set is kept in.
unfoldable pub precedes : SortedSetElement → SortedSetElement → Bool
precedes a b = float_lt a.score b.score || (float_eq a.score b.score && bytes_lt a.name b.name)

-- The elements are numbers in strictly rising order.
abbrev pub AllAfter : SortedSetElement → List SortedSetElement → Type 0
AllAfter e [] = Unit
AllAfter e (x ∷ xs) = (precedes e x ≡ true) × AllAfter e xs

abbrev pub IsOrdered : List SortedSetElement → Type 0
IsOrdered [] = Unit
IsOrdered (x ∷ xs) = IsNumber x × AllAfter x xs × IsOrdered xs

pub precedes_trans :
    (a b c : SortedSetElement) → precedes a b ≡ true → precedes b c ≡ true → precedes a c ≡ true
unfolding precedes float_lt float_eq
precedes_trans a b c h k = ground (arith, bytes_lt_trans a.name b.name c.name)

-- For numbers, the test of the search is that the old element does not come before the new one.
not_before-precedes :
    (e x : SortedSetElement)
    → IsNumber e
    → IsNumber x
    → not_before e.name e.score x ≡ not (precedes x e)
unfolding not_before precedes float_lt float_eq
not_before-precedes e x he hx = ground arith

-- Insertion in order, without a search.
unfoldable pub insert_ordered : SortedSetElement → List SortedSetElement → List SortedSetElement
insert_ordered e [] = e ∷ []
insert_ordered e (x ∷ xs) = if precedes x e then x ∷ insert_ordered e xs else e ∷ (x ∷ xs)

module _ (e : SortedSetElement) (he : IsNumber e) where
  abbrev test : List SortedSetElement → ℕ → Bool
  test es = test_at (not_before e.name e.score) es

  test_behind :
      (x : SortedSetElement) (xs : List SortedSetElement)
      → precedes x e ≡ false
      → AllAfter x xs
      → IsOrdered xs
      → (j : ℕ) → j < length xs
      → test xs j ≡ true
  unfolding test_at
  test_behind x [] h a o j lt = absurd (omega arith)
  test_behind x (y ∷ ys) h a o zero lt =
      ground (arith, not_before-precedes e y he (o.0), precedes_trans x y e)
  test_behind x (y ∷ ys) h a o (suc j) lt = test_behind x ys h (a.1) (o.2) j (omega arith)

  test-Monotone : (es : List SortedSetElement) → IsOrdered es → Monotone (length es) (test es)
  unfolding test_at
  test-Monotone [] o i j le lt h = absurd (omega arith)
  test-Monotone (x ∷ xs) o zero zero le lt h = h
  test-Monotone (x ∷ xs) o zero (suc j) le lt h =
      test_behind x xs (ground (arith, not_before-precedes e x he (o.0))) (o.1) (o.2) j
        (omega arith)
  test-Monotone (x ∷ xs) o (suc i) zero le lt h = absurd (omega arith)
  test-Monotone (x ∷ xs) o (suc i) (suc j) le lt h =
      test-Monotone xs (o.2) i j (omega arith) (omega arith) h

  insert_at-least :
      (es : List SortedSetElement) (k : ℕ)
      → IsOrdered es
      → IsLeast (length es) (test es) k
      → insert_at k e es ≡ insert_ordered e es
  unfolding insert_at insert_ordered test_at
  insert_at-least [] zero o l = refl
  insert_at-least [] (suc k) o l = absurd (omega (arith, l.within))
  insert_at-least (x ∷ xs) zero o l = ground (arith, not_before-precedes e x he (o.0), l.behind 0)
  insert_at-least (x ∷ xs) (suc k) o l = ground (
    arith,
    not_before-precedes e x he (o.0),
    l.before 0 (omega arith),
    insert_at-least xs k (o.2) (record {
      within = omega (arith, l.within);
      before = λ i lt. l.before (suc i) (omega arith);
      behind = λ i le lt. l.behind (suc i) (omega arith) (omega arith);
    }),
  )

  -- On an ordered list the search and the shift are insertion in order.
  pub place-insert_ordered :
      (es : List SortedSetElement) → IsOrdered es → place e.name e.score es ≡ insert_ordered e es
  unfolding place
  place-insert_ordered es o =
      insert_at-least es _ o (search_index-IsLeast (length es) (test es) (test-Monotone es o))
