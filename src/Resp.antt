-- ===== src/Resp.antt =====
-- The protocol text that the server writes with fmt.Sprintf, and OffsetByteSize of utils.go.
use make_your_own_redis_go.Shared.{
  ℕ, ◌+◌, List, [], ◌∷◌, ◌++◌, Bytes, codes, crlf, length, ◌≡◌, refl,
}
use make_your_own_redis_go.Text.{itoa}

-- "$%d\r\n%s\r\n" with len(s) and s.
unfoldable pub bulk : Bytes → Bytes
bulk s = b'$' ∷ (itoa (length s) ++ (crlf ++ (s ++ crlf)))

-- "*%d\r\n"
unfoldable pub array_header : ℕ → Bytes
array_header n = b'*' ∷ (itoa n ++ crlf)

-- ":%d\r\n"
unfoldable pub integer : ℕ → Bytes
integer n = b':' ∷ (itoa n ++ crlf)

-- "+" or "-" and a line of text.
unfoldable pub line : Bytes → Bytes
line s = s ++ crlf

abbrev pub null_bulk : Bytes
null_bulk = codes "$-1\r\n"

-- The loop that appends one bulk string for each argument.
unfoldable pub bulks : List Bytes → Bytes
bulks [] = []
bulks (a ∷ as') = bulk a ++ bulks as'

-- The text of a command, as PropagateCommand and AppendToAof build it.
unfoldable pub command : List Bytes → Bytes
command args = array_header (length args) ++ bulks args

unfoldable pub bulk_sizes : List Bytes → ℕ
bulk_sizes [] = 0
bulk_sizes (a ∷ as') = length (bulk a) + bulk_sizes as'

-- OffsetByteSize
unfoldable pub offset_byte_size : List Bytes → ℕ
offset_byte_size args = length (array_header (length args)) + bulk_sizes args

bulk_of_get : command (codes "GET" ∷ []) ≡ codes "*1\r\n$3\r\nGET\r\n"
unfolding command bulks array_header bulk itoa
bulk_of_get = refl
