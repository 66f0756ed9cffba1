-- ===== src/Commands/ZSets/Slices.antt =====
-- ZRANGE against slices of the order.
use make_your_own_redis_go.Shared.{
  ℕ, zero, suc, ◌+◌, ◌-◌, ◌≤◌, ◌<◌, ◌≡◌, refl, sym, ap, ◌∙◌, min, Bool, true, false, ◌||◌, List, [],
  ◌∷◌, ◌++◌, some, Bytes, codes, arith, leb, ltb, length, length-take, length-drop, get_elem?, take,
  drop, Bool-cases, inl, inr,
}
use make_your_own_redis_go.Shared.Int.{
  ℤ, pos, negsuc, ◌+ℤ◌, ◌-ℤ◌, ltb_ℤ, leb_ℤ, pos_part, min_ℤ, max_ℤ,
}
use make_your_own_redis_go.Shared.Dict.{store}
use make_your_own_redis_go.Text.{itoa}
use make_your_own_redis_go.Resp.{bulks, array_header, command}
use make_your_own_redis_go.Server.{Conn, SortedSet, SortedSetElement}
use make_your_own_redis_go.Server.Handler.{World, Outcome, ok}
use make_your_own_redis_go.Server.Output.{arrives, say-with_output}
use make_your_own_redis_go.Commands.ZSets.{
  set_zset, from_end, put_name, name_bulks, range_reply, zrange_locked, zrange,
}
use make_your_own_redis_go.Commands.ZSets.Indexed.{IsIndexed}
use make_your_own_redis_go.Commands.ZSets.Locks.{rlock_lem, with_sets}

abbrev pub names : List SortedSetElement → List Bytes
names [] = []
names (e ∷ es) = e.name ∷ names es

length-names : (es : List SortedSetElement) → length (names es) ≡ length es
length-names [] = refl
length-names (e ∷ es) = ap suc (length-names es)

-- The index that ZRANGE means: a negative one counts from the end, and stops at 0.
abbrev pub rank_of : ℤ → ℕ → ℕ
rank_of (pos i) len = i
rank_of (negsuc n) len = len - suc n

-- The elements from the rank `a` to the rank `b`, both included.
abbrev pub slice : ℕ → ℕ → List SortedSetElement → List SortedSetElement
slice a b es = take (min b (length es - 1) + 1 - a) (drop a es)

from_end-rank_of : (i : ℤ) (len : ℕ) → from_end i len ≡ pos (rank_of i len)
unfolding from_end max_ℤ ◌+ℤ◌
from_end-rank_of (pos i) len = ground arith
from_end-rank_of (negsuc n) len = ground arith

bulks-drop :
    (es : List SortedSetElement) (i n : ℕ)
    → i < length es
    → put_name (get_elem? es i) (some (bulks (names (take n (drop (suc i) es)))))
      ≡ some (bulks (names (take (suc n) (drop i es))))
unfolding put_name bulks
bulks-drop [] i n h = absurd (omega arith)
bulks-drop (e ∷ es) zero n h = refl
bulks-drop (e ∷ es) (suc i) n h = bulks-drop es i n (omega arith)

name_bulks-slice :
    (n i : ℕ) (es : List SortedSetElement)
    → i + n ≤ length es
    → name_bulks n i es ≡ some (bulks (names (take n (drop i es))))
unfolding name_bulks
name_bulks-slice zero i es h = unfold bulks in refl
name_bulks-slice (suc n) i es h =
    rw (suc_of i, name_bulks-slice n (suc i) es (omega arith)) (bulks-drop es i n (omega arith))
  where
    suc_of : (i : ℕ) → i + 1 ≡ suc i
    suc_of i = omega arith

drop-all : (a : ℕ) (es : List SortedSetElement) → length es ≤ a → drop a es ≡ []
drop-all zero [] h = refl
drop-all zero (e ∷ es) h = absurd (omega arith)
drop-all (suc a) [] h = refl
drop-all (suc a) (e ∷ es) h = drop-all a es (omega arith)

take-nil : (n : ℕ) → take {A = SortedSetElement} n [] ≡ []
take-nil zero = refl
take-nil (suc n) = refl

no_count :
    (a b len : ℕ) → leb len a ≡ false → (leb len a || ltb b a) ≡ true → min b (len - 1) + 1 - a ≡ 0
no_count a b len k h = ground arith

slice-nil :
    (a b : ℕ) (es : List SortedSetElement)
    → (leb (length es) a || ltb b a) ≡ true
    → slice a b es ≡ []
slice-nil a b es h = elim (Bool-cases (leb (length es) a)) [
  | inl beyond ↦ rw (drop-all a es (ground arith)) (take-nil _)
  | inr within ↦ rw (no_count a b (length es) within h) refl
]

length-slice :
    (a b : ℕ) (es : List SortedSetElement)
    → (leb (length es) a || ltb b a) ≡ false
    → (a + (min b (length es - 1) + 1 - a) ≤ length es)
      × (length (names (slice a b es)) ≡ min b (length es - 1) + 1 - a)
length-slice a b es h =
    let fits : a + (min b (length es - 1) + 1 - a) ≤ length es = ground arith in
    (
      fits,
      omega (
        arith,
        fits,
        length-names (slice a b es),
        length-take (min b (length es - 1) + 1 - a) (drop a es),
        length-drop a es,
      ),
    )

count_of :
    (a b len : ℕ)
    → 0 < len
    → pos_part (min_ℤ (pos b) (pos len -ℤ pos 1) -ℤ pos a +ℤ pos 1) ≡ min b (len - 1) + 1 - a
unfolding min_ℤ ◌+ℤ◌ ◌-ℤ◌
count_of a b len h = ground arith

-- What ZRANGE leaves: the reply is in the output, whichever of its paths was taken.
abbrev pub Replies : Conn → Bytes → World → Outcome (Unit {0}) × World → Type 0
Replies conn bytes w r =
    (r.0 ≡ ok tt) × (r.1.server.output ≡ w.server.output ++ arrives conn w.server bytes)

command-nil : command [] ≡ codes "*0\r\n"
unfolding command array_header bulks itoa
command-nil = refl

-- The test for an empty range, on signed numbers.
abbrev outside : ℕ → ℕ → ℕ → Bool
outside a b len = leb_ℤ (pos len) (pos a) || ltb_ℤ (pos b) (pos a)

outside_lem : (a b len : ℕ) → outside a b len ≡ (leb len a || ltb b a)
outside_lem a b len = ground arith

filled_positive : (a b len : ℕ) → outside a b len ≡ false → 0 < len
filled_positive a b len h = ground arith

Replies-zrange_locked :
    (conn : Conn) (key : Bytes) (z : SortedSet) (a b : ℕ) (w : World)
    → length z.elements ≡ length z.order
    → Replies conn
        (command (names (slice a b z.order)))
        w
        (zrange_locked conn key z (pos a) (pos b) w)
unfolding zrange_locked range_reply set_zset command
Replies-zrange_locked conn key z a b w sizes =
    let len = length z.order in
    elim (Bool-cases (outside a b len)) [
      | inl empty ↦
          rw
            (
              sizes,
              empty,
              slice-nil a b z.order (sym (outside_lem a b len) ∙ empty),
              command-nil,
              say-with_output,
            )
            (refl, refl)
      | inr filled ↦
          let (fits, size) = length-slice a b z.order (sym (outside_lem a b len) ∙ filled) in
          rw
            (
              sizes,
              filled,
              count_of a b len (filled_positive a b len filled),
              name_bulks-slice (min b (len - 1) + 1 - a) a z.order fits,
              say-with_output,
            )
            (
              refl,
              ap
                  (λ n.
                    w.server.output
                    ++ arrives conn w.server (array_header n ++ bulks (names (slice a b z.order))))
                  (sym size),
            )
    ]

-- ZRANGE on an indexed set that no writer holds, for all pairs of indices: it does not panic and does
-- not wait, and its reply is the array of the names from the first rank to the second, which is empty
-- where there are none; negative indices count from the end and stop at the first element.
pub zrange-slice :
    (conn : Conn) (key : Bytes) (z : SortedSet) (i j : ℤ) (w : World)
    → IsIndexed z
    → z.writer ≡ false
    → let a = rank_of i (length z.order) in
      let b = rank_of j (length z.order) in
      Replies conn (command (names (slice a b z.order))) w (zrange conn key i j (some z) w)
unfolding zrange
zrange-slice conn key z i j w indexed free =
    let sets = store key (record z { readers = z.readers + 1 }) w.server.zsets in
    rw
      (
        rlock_lem key z w free,
        indexed.sizes,
        from_end-rank_of i (length z.order),
        from_end-rank_of j (length z.order),
      )
      (Replies-zrange_locked conn key z (rank_of i (length z.order)) (rank_of j (length z.order))
        (with_sets sets w) indexed.sizes)
