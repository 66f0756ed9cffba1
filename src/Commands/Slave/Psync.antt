-- ===== src/Commands/Slave/Psync.antt =====
-- HandlePsyncSlave on the answer of HandlePsyncMaster.
use make_your_own_redis_go.Shared.{
  ℕ, ◌+◌, ◌^◌, ◌<◌, ◌≡◌, refl, append_assoc, true, false, ◌||◌, List, [], ◌∷◌, ◌++◌, Bytes, codes,
  arith, line_feed, Lacks, Lacks-append, length, trim_prefix, leb, ltb,
}
use make_your_own_redis_go.Shared.Int.{pos}
use make_your_own_redis_go.Shared.Dict.{store}
use make_your_own_redis_go.Text.{itoa, atoi, trim_space}
use make_your_own_redis_go.Text.Trim.{trim_space-line}
use make_your_own_redis_go.Text.Decimal.{atoi-itoa}
use make_your_own_redis_go.Reader.Stream.{read_full-buffer}
use make_your_own_redis_go.Resp.{line, command}
use make_your_own_redis_go.Server.{Conn, number}
use make_your_own_redis_go.Server.Handler.{World, ok, contains, transmit, write}
use make_your_own_redis_go.Server.Arguments.{feed, itoa-Lacks, read_line-feed, skip_line-feed}
use make_your_own_redis_go.Server.Output.{with_output}
use make_your_own_redis_go.Commands.{store_info}
use make_your_own_redis_go.Commands.Acks.{itoa-IsArgument}
use make_your_own_redis_go.Commands.Replication.{rdb_payload}
use make_your_own_redis_go.Commands.Slave.{take_bytes, psync_slave}

-- A connection on which writes succeed and arrive.
pub record IsLive (conn : Conn) (dead : List ℕ) : Type 0 where
  pub loud : conn.silent ≡ false
  pub alive : contains dead conn.id ≡ false

pub write_live :
    (conn : Conn) (bytes : Bytes) (w : World)
    → IsLive conn w.server.dead
    → write conn bytes w ≡ (ok true, with_output ((conn.id, bytes) ∷ []) w)
unfolding write transmit
write_live conn bytes w live = rw (live.loud, live.alive) refl

-- A read of as many bytes as are in front.
pub take_bytes-front :
    (s t : Bytes) (w : World)
    → length s < 2 ^ 48
    → take_bytes (pos (length s)) (feed (s ++ t) w) ≡ (ok tt, feed t w)
unfolding take_bytes
take_bytes-front s t w h = rw (in_range (length s) h) (rw (read_full-buffer s t w.reader) refl)
  where
    in_range : (n : ℕ) → n < 2 ^ 48 → (ltb (n + 0) 0 || leb (2 ^ 48) (n + 0)) ≡ false
    in_range n small = ground arith

pub line_split : (s t : Bytes) → line s ++ t ≡ (s ++ 13 ∷ []) ++ line_feed ∷ t
unfolding line
line_split s t = simp append_assoc

pub payload_split :
    (rdb t : Bytes)
    → rdb_payload rdb ++ t ≡ ((b'$' ∷ itoa (length rdb)) ++ 13 ∷ []) ++ line_feed ∷ (rdb ++ t)
unfolding rdb_payload
payload_split rdb t = simp append_assoc

-- The line with the size of the file that follows.
pub size_line :
    (n : ℕ)
    → n < 2 ^ 48
    → atoi (trim_space (trim_prefix b'$' (((b'$' ∷ itoa n) ++ 13 ∷ []) ++ line_feed ∷ [])))
      ≡ (pos n, true)
unfolding trim_prefix
size_line n h =
    rw (trim_space-line (itoa n) ((itoa-IsArgument n).trimmed)) (atoi-itoa n (omega arith))

abbrev pub psync_request : Bytes
psync_request = codes "*3\r\n$5\r\nPSYNC\r\n$1\r\n?\r\n$2\r\n-1\r\n"

-- The master's answer to PSYNC: a line, and the file behind its size.
abbrev pub full_resync_line : Bytes → Bytes → Bytes
full_resync_line replid offset = line (codes "+FULLRESYNC " ++ (replid ++ b' ' ∷ offset))

pub full_resync_line-Lacks :
    (replid offset : Bytes)
    → Lacks line_feed replid
    → Lacks line_feed offset
    → Lacks line_feed ((codes "+FULLRESYNC " ++ (replid ++ b' ' ∷ offset)) ++ 13 ∷ [])
full_resync_line-Lacks replid offset one two =
    Lacks-append line_feed (codes "+FULLRESYNC " ++ (replid ++ b' ' ∷ offset)) (13 ∷ [])
      (Lacks-append line_feed (codes "+FULLRESYNC ") (replid ++ b' ' ∷ offset) (omega arith)
        (Lacks-append line_feed replid (b' ' ∷ offset) one (omega arith, two)))
      (omega arith)

-- The replica's session behind its PSYNC.
abbrev pub after_psync : Conn → Bytes → World → World
after_psync conn rest w = feed rest (record w {
  server = record (w.server) {
    output = w.server.output ++ (conn.id, psync_request) ∷ [];
    info = store (codes "repl_offset") (number (pos 0)) w.server.info;
  };
})

module _ (conn : Conn) (rdb rest replid offset : Bytes) (w : World) where
  pub psync_slave-reads :
      IsLive conn w.server.dead
      → Lacks line_feed replid
      → Lacks line_feed offset
      → length rdb < 2 ^ 48
      → psync_slave conn (feed (full_resync_line replid offset ++ (rdb_payload rdb ++ rest)) w)
        ≡ (ok (record conn { silent = true }), after_psync conn rest w)
  unfolding psync_slave store_info
  psync_slave-reads live one two small =
      rw
        (
          line_split (codes "+FULLRESYNC " ++ (replid ++ b' ' ∷ offset)) (rdb_payload rdb ++ rest),
          write_live conn psync_request (feed _ w) live,
          skip_line-feed _ (rdb_payload rdb ++ rest) (with_output ((conn.id, psync_request) ∷ []) w)
              (full_resync_line-Lacks replid offset one two),
          payload_split rdb rest,
          read_line-feed ((b'$' ∷ itoa (length rdb)) ++ 13 ∷ []) (rdb ++ rest)
              (with_output ((conn.id, psync_request) ∷ []) w)
              (
                omega arith,
                Lacks-append line_feed (itoa (length rdb)) (13 ∷ []) (itoa-Lacks (length rdb))
                    (omega arith),
              ),
          size_line (length rdb) small,
          take_bytes-front rdb rest (with_output ((conn.id, psync_request) ∷ []) w) small,
        )
        refl

abbrev pub listening : Bytes → Bytes
listening port = command (codes "REPLCONF" ∷ codes "listening-port" ∷ port ∷ [])

abbrev pub capabilities : Bytes
capabilities = command (codes "REPLCONF" ∷ codes "capa" ∷ codes "psync2" ∷ [])

abbrev pub sent : Conn → Bytes → World → World
sent conn bytes w = with_output ((conn.id, bytes) ∷ []) w

-- What a replica that listens on `port` has sent before PSYNC.
abbrev pub greetings : Conn → Bytes → World → World
greetings conn port w =
    sent conn capabilities (sent conn (listening port) (sent conn (codes "*1\r\n$4\r\nPING\r\n") w))
