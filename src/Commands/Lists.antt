-- ===== src/Commands/Lists.antt =====
-- handlers.go: RPUSH, LPUSH, LRANGE, LLEN and LPOP. A handler holds the list's mutex from its first
-- look at the list to its last, so it is one action.
pub mod Range
pub mod Queue
use make_your_own_redis_go.Shared.{
  ℕ, zero, suc, ◌+◌, ◌-◌, Bool, true, false, List, [], ◌∷◌, ◌++◌, Option, none, some, Bytes, codes,
  beq, if◌then◌else◌, length, drop, crlf, get_elem?, trim_prefix, ◌==◌,
}
use make_your_own_redis_go.Shared.Int.{ℤ, pos, negsuc, ◌+ℤ◌, ◌-ℤ◌, ltb_ℤ, min_ℤ, max_ℤ, pos_part}
use make_your_own_redis_go.Shared.Dict.{load, store, load_or}
use make_your_own_redis_go.Text.{trim_space, atoi, itoa, itoa_ℤ}
use make_your_own_redis_go.Resp.{bulk, bulks, integer, null_bulk, line}
use make_your_own_redis_go.Server.{Server, Conn, LockableList}
use make_your_own_redis_go.Server.Handler.{
  Handler, ok, panic, index_out_of_range, slice_out_of_range, Fault, ◌>>=◌, ◌>>◌, pure, stop, fault,
  gets, modify, skip_line, read_checked, read_arg, has_buffered, say,
}
use make_your_own_redis_go.Commands.{require_auth, rest_args}

abbrev pub new_list : LockableList
new_list = record { elements = []; clients = [] }

-- The loop that hands new elements to waiting clients: what is left of both, and what was sent. A
-- channel leaves `clients` with its only send, so its buffer of one has room.
pub record Delivery : Type 0 where
  pub clients : List ℕ
  pub elements : List Bytes
  pub sent : List (ℕ × Bytes)

unfoldable pub deliver : List ℕ → List Bytes → List (ℕ × Bytes) → Delivery
deliver [] es sent = record { clients = []; elements = es; sent = sent }
deliver (c ∷ cs) [] sent = record { clients = c ∷ cs; elements = []; sent = sent }
deliver (c ∷ cs) (e ∷ es) sent = deliver cs es (sent ++ (c, e) ∷ [])

-- The part of HandleRPush under the lock.
unfoldable pub push_right : Bytes → List Bytes → Server → Server
push_right key es s =
    let l = load_or key new_list s.lists in
    let d = deliver l.clients es s.sent in
    record s {
      lists =
          store key (record { elements = l.elements ++ d.elements; clients = d.clients }) s.lists;
      sent = d.sent;
    }

-- HandleRPush
unfoldable pub handle_rpush : Conn → Handler (Unit {0})
handle_rpush conn = do
  require_auth conn
  key ← read_arg
  es ← rest_args
  l ← gets (λ s. load_or key new_list s.lists)
  modify (push_right key es)
  say conn (integer (length l.elements + length es))

-- The loop of HandleLPush.
unfoldable pub prepend : List Bytes → List Bytes → List Bytes
prepend [] l = l
prepend (e ∷ es) l = prepend es (e ∷ l)

-- The part of HandleLPush under the lock: waiting clients are left waiting.
unfoldable pub push_left : Bytes → List Bytes → Server → Server
push_left key es s =
    let l = load_or key new_list s.lists in
    record s { lists = store key (record l { elements = prepend es l.elements }) s.lists }

-- HandleLPush
unfoldable pub handle_lpush : Conn → Handler (Unit {0})
handle_lpush conn = do
  require_auth conn
  key ← read_arg
  es ← rest_args
  modify (push_left key es)
  l ← gets (λ s. load_or key new_list s.lists)
  say conn (integer (length l.elements))

-- `list.elements[i]`
unfoldable pub at_index : List Bytes → ℤ → Option Bytes
at_index es (pos i) = get_elem? es i
at_index es (negsuc i) = none

unfoldable pub put_bulk : Option Bytes → Option Bytes → Option Bytes
put_bulk (some e) (some rest) = some (bulk e ++ rest)
put_bulk (some e) none = none
put_bulk none rest = none

-- `for i := index1; i <= index2; i++`, by the rounds that are left; `none` is an index out of range.
unfoldable pub range_bulks : ℕ → ℤ → List Bytes → Option Bytes
range_bulks zero i es = some []
range_bulks (suc n) i es = put_bulk (at_index es i) (range_bulks n (i +ℤ pos 1) es)

-- A negative index counts from the end; then both are cut to the last index.
unfoldable pub clamp_index : ℤ → ℕ → ℤ
clamp_index i len =
    min_ℤ (if ltb_ℤ i (pos 0) then max_ℤ (pos 0) (i +ℤ pos len) else i) (pos len -ℤ pos 1)

unfoldable pub with_header : ℤ → Option Bytes → Option Bytes
with_header count none = none
with_header count (some text) = some (b'*' ∷ (itoa_ℤ count ++ (crlf ++ text)))

-- The reply of LRANGE for a list that exists.
unfoldable pub lrange : List Bytes → ℤ → ℤ → Option Bytes
lrange es index1 index2 =
    let i = clamp_index index1 (length es) in
    let j = clamp_index index2 (length es) in
    with_header (j -ℤ i +ℤ pos 1) (range_bulks (pos_part (j -ℤ i +ℤ pos 1)) i es)

unfoldable pub send_range : Conn → Option Bytes → Handler (Unit {0})
send_range conn none = fault index_out_of_range
send_range conn (some reply) = say conn reply

unfoldable pub lrange_reply : Conn → ℤ → ℤ → Option LockableList → Handler (Unit {0})
lrange_reply conn index1 index2 none = say conn (codes "*0\r\n")
lrange_reply conn index1 index2 (some l) = send_range conn (lrange l.elements index1 index2)

-- HandleLRange
unfoldable pub handle_lrange : Conn → Handler (Unit {0})
handle_lrange conn = do
  require_auth conn
  key ← read_arg
  index1 ← read_arg
  index2 ← read_arg
  l ← gets (λ s. load key s.lists)
  lrange_reply conn (atoi index1).0 (atoi index2).0 l

unfoldable pub llen : Option LockableList → ℕ
llen none = 0
llen (some l) = length l.elements

-- HandleLLen
unfoldable pub handle_llen : Conn → Handler (Unit {0})
handle_llen conn = do
  require_auth conn
  key ← read_arg
  l ← gets (λ s. load key s.lists)
  say conn (integer (llen l))

-- The loop that collects the first `n` elements; `none` is an index out of range.
unfoldable pub pop_front : ℕ → List Bytes → Option (List Bytes × List Bytes)
pop_front zero es = some ([], es)
pop_front (suc n) [] = none
pop_front (suc n) (e ∷ es) = elim (pop_front n es) [
  | none ↦ none
  | some (popped, rest) ↦ some (e ∷ popped, rest)
]

-- The reply for the elements popped: one bulk string for the count 1, else an array.
unfoldable pub popped_reply : ℕ → List Bytes → Bytes
popped_reply n [] = b'*' ∷ (itoa n ++ crlf)
popped_reply n (e ∷ es) = if n == 1 then bulk e else b'*' ∷ (itoa n ++ (crlf ++ bulks (e ∷ es)))

-- What is left of the list is stored, and what was popped is sent.
unfoldable pub send_popped :
    Conn → Bytes → LockableList → ℕ → Option (List Bytes × List Bytes) → Handler (Unit {0})
send_popped conn key l n none = fault index_out_of_range
send_popped conn key l n (some (popped, rest)) = do
  modify (λ s. record s { lists = store key (record l { elements = rest }) s.lists })
  say conn (popped_reply n popped)

-- The part of HandleLPop under the lock. A slice from a negative index panics, and so does an element
-- past the end.
unfoldable pub pop_count : Conn → Bytes → LockableList → ℤ → Handler (Unit {0})
pop_count conn key l (negsuc n) = fault slice_out_of_range
pop_count conn key l (pos n) = send_popped conn key l n (pop_front n l.elements)

unfoldable pub lpop : Conn → Bytes → Option LockableList → ℤ → Handler (Unit {0})
lpop conn key none n = say conn null_bulk
lpop conn key (some l) n = pop_count conn key l n

-- The optional count: a text that is no number ends the handler without a reply.
unfoldable pub pop_arg : Handler ℤ
pop_arg = do
  more ← has_buffered
  if more
      then (do
        skip_line
        text ← read_checked
        let parsed = atoi (trim_space (trim_prefix b'$' text))
        if parsed.1 then pure parsed.0 else stop)
      else pure (pos 1)

-- HandleLPop
unfoldable pub handle_lpop : Conn → Handler (Unit {0})
handle_lpop conn = do
  require_auth conn
  key ← read_arg
  n ← pop_arg
  l ← gets (λ s. load key s.lists)
  lpop conn key l n
