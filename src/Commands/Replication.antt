-- ===== src/Commands/Replication.antt =====
-- handlers.go and utils.go: REPLCONF, PSYNC and WAIT, and the replica's side of the handshake.
use make_your_own_redis_go.Shared.{
  ℕ, ◌+◌, ◌-◌, ◌*◌, false, ◌||◌, ◌&&◌, List, [], ◌∷◌, ◌++◌, Bytes, codes, crlf, beq, if◌then◌else◌,
  length, leb, ◌==◌,
}
use make_your_own_redis_go.Shared.Int.{ℤ, pos, ◌+ℤ◌, leb_ℤ, ltb_ℤ}
use make_your_own_redis_go.Text.{to_upper, atoi, itoa, itoa_ℤ}
use make_your_own_redis_go.Resp.{integer, line, command}
use make_your_own_redis_go.Server.{Server, Conn, Replica, number, conn_eq}
use make_your_own_redis_go.Server.Handler.{
  Handler, for_acks, ◌>>=◌, ◌>>◌, pure, stop, block, gets, modify, read_arg, read_arg_logged,
  skip_line, write, say,
}
use make_your_own_redis_go.Commands.{info_int, info_string, store_info, send_all}

-- The connection that a SilentConn wraps.
unfoldable pub unwrapped : Conn → Conn
unwrapped conn = record conn { silent = false }

-- The answer to GETACK. The constant 37 is the size of the GETACK command itself.
unfoldable pub get_ack : Conn → Handler (Unit {0})
get_ack conn = do
  offset ← info_int (codes "repl_offset")
  say (unwrapped conn) (command (codes "REPLCONF" ∷ codes "ACK" ∷ itoa_ℤ offset ∷ []))
  store_info (codes "repl_offset") (number (offset +ℤ pos 37))

-- The loop that notes the offset of the replica on this connection.
unfoldable pub note_offset : Conn → ℤ → List Replica → List Replica
note_offset conn offset [] = []
note_offset conn offset (r ∷ rs) =
    if conn_eq r.conn conn
    then record r { offset = offset } ∷ rs
    else r ∷ note_offset conn offset rs

-- The master's part of HandleReplConf.
unfoldable pub master_conf : Conn → Bytes → Bytes → Handler (Unit {0})
master_conf conn cmd val =
    if beq cmd (codes "LISTENING-PORT") || beq cmd (codes "CAPA")
    then say conn (line (codes "+OK"))
    else if beq cmd (codes "ACK")
    then modify (λ s. record s { replicas = note_offset conn (atoi val).0 s.replicas })
    else pure tt

-- HandleReplConf
unfoldable pub handle_replconf : Conn → Handler (Unit {0})
handle_replconf conn = do
  arg ← read_arg_logged
  val ← read_arg_logged
  let cmd = to_upper arg
  if beq cmd (codes "GETACK") then get_ack conn else do
    role ← info_string (codes "role")
    if beq role (codes "master") then master_conf conn cmd val else pure tt

-- hex.DecodeString on a text of lower-case digits, as emptyRdbHex is.
unfoldable pub hex_digit : ℕ → ℕ
hex_digit c = if leb c b'9' then c - b'0' else (c + 10) - b'a'

unfoldable pub hex_decode : Bytes → Bytes
hex_decode [] = []
hex_decode (a ∷ []) = []
hex_decode (a ∷ b ∷ s) = (hex_digit a * 16 + hex_digit b) ∷ hex_decode s

abbrev pub empty_rdb_hex : Bytes
empty_rdb_hex =
    codes "524544495330303131fa0972656469732d76657205372e322e30fa0a7265646973"
    ++ (codes "2d62697473c040fa056374696d65c26d08bc65fa08757365642d6d656dc2b0c4"
        ++ codes "1000fa08616f662d62617365c000fff06e3bfec0ff5aa2")

-- "$%d\r\n" and the bytes, with no line end behind.
unfoldable pub rdb_payload : Bytes → Bytes
rdb_payload rdb = b'$' ∷ (itoa (length rdb) ++ (crlf ++ rdb))

unfoldable pub add_replica : Conn → Handler (Unit {0})
add_replica conn =
    modify λ s. record s { replicas = s.replicas ++ (record { conn = conn; offset = pos 0 }) ∷ [] }

unfoldable pub full_resync : Conn → Handler (Unit {0})
full_resync conn = do
  skip_line
  skip_line
  skip_line
  skip_line
  replid ← info_string (codes "master_replid")
  offset ← info_string (codes "master_repl_offset")
  done ← write conn (line (codes "+FULLRESYNC " ++ (replid ++ (b' ' ∷ offset))))
  if done
      then (do
        sent ← write conn (rdb_payload (hex_decode empty_rdb_hex))
        if sent then add_replica conn else stop)
      else stop

-- HandlePsyncMaster
unfoldable pub handle_psync_master : Conn → Handler (Unit {0})
handle_psync_master conn = do
  role ← info_string (codes "role")
  if beq role (codes "master") then full_resync conn else stop

-- The count of the loop of HandleWait.
unfoldable pub count_acked : ℤ → List Replica → ℕ
count_acked target [] = 0
count_acked target (r ∷ rs) =
    if leb_ℤ target r.offset then count_acked target rs + 1 else count_acked target rs

abbrev pub get_ack_command : Bytes
get_ack_command = codes "*3\r\n$8\r\nREPLCONF\r\n$6\r\nGETACK\r\n$1\r\n*\r\n"

-- One round of the loop of HandleWait: it leaves with the count, or waits for the next tick.
unfoldable pub wait_round : Conn → ℤ → ℤ → Handler (Unit {0})
wait_round conn wanted timeout = do
  acked ← gets (λ s. count_acked s.master_offset s.replicas)
  if leb_ℤ wanted (pos acked) then say conn (integer acked) else block (for_acks wanted timeout)

-- `case <-ctx.Done()`: the count of the last round is the reply. Without a timeout it never comes.
unfoldable pub wait_expired : Conn → ℤ → ℤ → ℕ → Handler (Unit {0})
wait_expired conn wanted timeout acked =
    if ltb_ℤ (pos 0) timeout then say conn (integer acked) else block (for_acks wanted timeout)

-- The body of HandleWait behind its arguments.
unfoldable pub wait_for : Conn → ℤ → ℤ → Server → Handler (Unit {0})
wait_for conn wanted timeout s =
    if length s.replicas == 0 || (leb_ℤ (pos 0) s.master_offset && leb_ℤ s.master_offset (pos 0))
    then say conn (integer (length s.replicas))
    else do send_all s.replicas get_ack_command; wait_round conn wanted timeout

-- HandleWait, up to its first wait.
unfoldable pub handle_wait : Conn → Handler (Unit {0})
handle_wait conn = do
  wanted ← read_arg
  timeout ← read_arg
  s ← gets (λ s. s)
  wait_for conn (atoi wanted).0 (atoi timeout).0 s

-- HandleReplConfSlave: each answer of the master is read and dropped.
unfoldable pub replconf_slave : Conn → Bytes → Handler (Unit {0})
replconf_slave conn port = do
  done ← write conn (command (codes "REPLCONF" ∷ codes "listening-port" ∷ port ∷ []))
  if done
      then (do
        skip_line
        sent ← write conn (command (codes "REPLCONF" ∷ codes "capa" ∷ codes "psync2" ∷ []))
        if sent then skip_line else stop)
      else stop
