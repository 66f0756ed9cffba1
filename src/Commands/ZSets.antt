-- ===== src/Commands/ZSets.antt =====
-- utils.go and handlers.go: the sorted sets. The read-write lock of a set is part of the model: a
-- handler that finds it taken blocks, and one that returns without the unlock leaves it taken.
pub mod Order
pub mod Names
pub mod Valid
pub mod Indexed
pub mod Ranks
pub mod Locks
pub mod Slices
use make_your_own_redis_go.Shared.{
  ℕ, zero, suc, ◌+◌, ◌-◌, Bool, true, false, not, ◌&&◌, ◌||◌, List, [], ◌∷◌, ◌++◌, Option, none,
  some, Bytes, codes, beq, bytes_lt, if◌then◌else◌, length, get_elem?, take, drop, ltb, ◌==◌,
}
use make_your_own_redis_go.Shared.Int.{ℤ, pos, ◌+ℤ◌, ◌-ℤ◌, ltb_ℤ, leb_ℤ, min_ℤ, max_ℤ, pos_part}
use make_your_own_redis_go.Shared.Dict.{Dict, load, store, remove, load_or}
use make_your_own_redis_go.Float.{Float64, float_eq, float_lt}
use make_your_own_redis_go.Search.{search_index}
use make_your_own_redis_go.Text.{trim_space, atoi}
use make_your_own_redis_go.Resp.{bulk, array_header, integer, null_bulk}
use make_your_own_redis_go.Server.{Server, Conn, SortedSet, SortedSetElement, Library}
use make_your_own_redis_go.Server.Handler.{
  Handler, for_lock, index_out_of_range, ◌>>=◌, ◌>>◌, pure, stop, fault, block, gets, modify,
  read_arg, read_arg_logged, say,
}

abbrev pub new_set : SortedSet
new_set = record { elements = []; order = []; readers = 0; writer = false }

unfoldable pub set_zset : Bytes → SortedSet → Handler (Unit {0})
set_zset key z = modify (λ s. record s { zsets = store key z s.zsets })

unfoldable pub member : Bytes → Dict Float64 → Bool
member name d = elim (load name d) [ none ↦ false | some score ↦ true ]

-- The loop that cuts the element of this name out of the order.
unfoldable pub cut_name : Bytes → List SortedSetElement → List SortedSetElement
cut_name name [] = []
cut_name name (e ∷ es) = if beq e.name name then es else e ∷ cut_name name es

-- The test that AddToSortedSet gives to sort.Search.
unfoldable pub not_before : Bytes → Float64 → SortedSetElement → Bool
not_before name score e =
    if float_eq e.score score then not (bytes_lt e.name name) else float_lt score e.score

unfoldable pub test_at : (SortedSetElement → Bool) → List SortedSetElement → ℕ → Bool
test_at f es i = elim (get_elem? es i) [ none ↦ false | some e ↦ f e ]

-- `append`, `copy` by one place to the right, and the write at the index.
unfoldable pub insert_at : ℕ → SortedSetElement → List SortedSetElement → List SortedSetElement
insert_at i e es = take i es ++ (e ∷ drop i es)

unfoldable pub place : Bytes → Float64 → List SortedSetElement → List SortedSetElement
place name score es =
    insert_at (search_index (length es) (test_at (not_before name score) es))
      (record { name = name; score = score }) es

-- The part of AddToSortedSet under the lock: the set, and 1 if the name is new.
unfoldable pub add_element : Bytes → Float64 → SortedSet → SortedSet × ℕ
add_element name score z =
    let known = member name z.elements in
    let order = if known then cut_name name z.order else z.order in
    (
      record z { elements = store name score z.elements; order = place name score order },
      if known then 0 else 1,
    )

-- sortedSet.Lock(): a taken lock blocks, and a waiting writer keeps new readers out.
unfoldable pub lock : Bytes → SortedSet → Handler (Unit {0})
lock key z =
    if ltb 0 z.readers || z.writer
    then (do set_zset key (record z { writer = true }); block (for_lock key))
    else set_zset key (record z { writer = true })

-- sortedSet.RLock()
unfoldable pub rlock : Bytes → SortedSet → Handler (Unit {0})
rlock key z =
    if z.writer then block (for_lock key) else set_zset key (record z { readers = z.readers + 1 })

-- AddToSortedSet. The lock is released by its writer, so the set is stored with a free lock.
unfoldable pub add_to_sorted_set : Bytes → Bytes → Float64 → Handler ℕ
add_to_sorted_set key name score = do
  z ← gets (λ s. load_or key new_set s.zsets)
  lock key z
  set_zset key (add_element name score z).0
  pure (add_element name score z).1

-- HandleZadd
unfoldable pub handle_zadd : Library → Conn → Handler (Unit {0})
handle_zadd lib conn = do
  key ← read_arg_logged
  score ← read_arg_logged
  name ← read_arg_logged
  added ← add_to_sorted_set key name (lib.parse_float score)
  say conn (integer added)

-- `for rank, e := range sortedSet.Order`, with the rank to come.
unfoldable pub rank_from : ℕ → Bytes → List SortedSetElement → Option ℕ
rank_from n name [] = none
rank_from n name (e ∷ es) = if beq e.name name then some n else rank_from (n + 1) name es

-- The end of HandleZRank. Only the path behind the loop releases the read lock.
unfoldable pub rank_reply : Conn → Bytes → SortedSet → Option ℕ → Handler (Unit {0})
rank_reply conn key z (some rank) = say conn (integer rank)
rank_reply conn key z none = set_zset key z

unfoldable pub zrank : Conn → Bytes → Bytes → Option SortedSet → Handler (Unit {0})
zrank conn key name none = say conn null_bulk
zrank conn key name (some z) = do
  rlock key z
  if member name z.elements
      then rank_reply conn key z (rank_from 0 name z.order)
      else say conn null_bulk

-- HandleZRank
unfoldable pub handle_zrank : Conn → Handler (Unit {0})
handle_zrank conn = do
  key ← read_arg
  name ← read_arg
  z ← gets (λ s. load key s.zsets)
  zrank conn key name z

-- A negative index of ZRANGE counts from the end.
unfoldable pub from_end : ℤ → ℕ → ℤ
from_end i len = if ltb_ℤ i (pos 0) then max_ℤ (pos 0) (pos len +ℤ i) else i

unfoldable pub put_name : Option SortedSetElement → Option Bytes → Option Bytes
put_name (some e) (some rest) = some (bulk e.name ++ rest)
put_name (some e) none = none
put_name none rest = none

-- The loop over the order; `none` is an index out of range.
unfoldable pub name_bulks : ℕ → ℕ → List SortedSetElement → Option Bytes
name_bulks zero i es = some []
name_bulks (suc n) i es = put_name (get_elem? es i) (name_bulks n (i + 1) es)

unfoldable pub range_reply : Conn → Bytes → SortedSet → ℕ → Option Bytes → Handler (Unit {0})
range_reply conn key z count none = fault index_out_of_range
range_reply conn key z count (some names) = do
  set_zset key z
  say conn (array_header count ++ names)

-- The part of HandleZRange behind RLock. An empty range returns with the lock held.
unfoldable pub zrange_locked : Conn → Bytes → SortedSet → ℤ → ℤ → Handler (Unit {0})
zrange_locked conn key z i j =
    if leb_ℤ (pos (length z.elements)) i || ltb_ℤ j i
    then say conn (codes "*0\r\n")
    else let last = min_ℤ j (pos (length z.elements) -ℤ pos 1) in
      let count = pos_part (last -ℤ i +ℤ pos 1) in
      range_reply conn key z count (name_bulks count (pos_part i) z.order)

unfoldable pub zrange : Conn → Bytes → ℤ → ℤ → Option SortedSet → Handler (Unit {0})
zrange conn key index1 index2 none = say conn (codes "*0\r\n")
zrange conn key index1 index2 (some z) = do
  rlock key z
  zrange_locked conn key z (from_end index1 (length z.elements))
      (from_end index2 (length z.elements))

-- HandleZRange
unfoldable pub handle_zrange : Conn → Handler (Unit {0})
handle_zrange conn = do
  key ← read_arg
  index1 ← read_arg
  index2 ← read_arg
  z ← gets (λ s. load key s.zsets)
  zrange conn key (atoi index1).0 (atoi index2).0 z

unfoldable pub zcard : Conn → Bytes → Option SortedSet → Handler (Unit {0})
zcard conn key none = say conn (integer 0)
zcard conn key (some z) = do rlock key z; say conn (integer (length z.elements)); set_zset key z

-- HandleZCard
unfoldable pub handle_zcard : Conn → Handler (Unit {0})
handle_zcard conn = do key ← read_arg; z ← gets (λ s. load key s.zsets); zcard conn key z

-- An element that is missing returns with the read lock held.
unfoldable pub score_reply :
    Library → Conn → Bytes → SortedSet → Option Float64 → Handler (Unit {0})
score_reply lib conn key z none = say conn null_bulk
score_reply lib conn key z (some score) = do
  set_zset key z
  say conn (bulk (lib.format_float score))

unfoldable pub zscore : Library → Conn → Bytes → Bytes → Option SortedSet → Handler (Unit {0})
zscore lib conn key name none = say conn null_bulk
zscore lib conn key name (some z) = do
  rlock key z
  score_reply lib conn key z (load name z.elements)

-- HandleZScore
unfoldable pub handle_zscore : Library → Conn → Handler (Unit {0})
handle_zscore lib conn = do
  key ← read_arg
  name ← read_arg
  z ← gets (λ s. load key s.zsets)
  zscore lib conn key name z

-- The part of HandleZRem under the lock, for an element that is there.
unfoldable pub remove_element : Bytes → SortedSet → SortedSet
remove_element name z = record z {
  elements = remove name z.elements;
  order = cut_name name z.order;
}

unfoldable pub zrem : Conn → Bytes → Bytes → Option SortedSet → Handler (Unit {0})
zrem conn key name none = say conn (integer 0)
zrem conn key name (some z) = do
  lock key z
  if member name z.elements
      then (do set_zset key (remove_element name z); say conn (integer 1))
      else (do set_zset key z; say conn (integer 0))

-- HandleZRem
unfoldable pub handle_zrem : Conn → Handler (Unit {0})
handle_zrem conn = do
  key ← read_arg
  name ← read_arg
  z ← gets (λ s. load key s.zsets)
  zrem conn key name z
