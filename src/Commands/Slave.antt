-- ===== src/Commands/Slave.antt =====
-- handlers.go and utils.go: what a replica does to join its master (ConnectToMaster behind its
-- net.Dial, and HandlePsyncSlave).
pub mod Psync
pub mod Handshake
use make_your_own_redis_go.Shared.{◌^◌, ◌||◌, ◌∷◌, Bytes, true, codes, trim_prefix, if◌then◌else◌}
use make_your_own_redis_go.Shared.Int.{ℤ, pos, pos_part, ltb_ℤ, leb_ℤ}
use make_your_own_redis_go.Text.{trim_space, atoi}
use make_your_own_redis_go.Reader.{read_full}
use make_your_own_redis_go.Server.{Conn, number}
use make_your_own_redis_go.Server.Handler.{
  Handler, World, Outcome, ok, returned, make_slice, ◌>>=◌, ◌>>◌, pure, stop, fault, skip_line,
  read_line, write,
}
use make_your_own_redis_go.Commands.{store_info}
use make_your_own_redis_go.Commands.Replication.{replconf_slave}

-- A call of a function whose `return` is not that of its caller.
unfoldable pub resume : Outcome (Unit {0}) → Outcome (Unit {0})
resume returned = ok tt
resume other = other

unfoldable pub call : Handler (Unit {0}) → Handler (Unit {0})
unfolding resume
call h w = (resume (h w).0, (h w).1)

-- `_, _ = io.ReadFull(reader, make([]byte, length))`: a slice of a negative size, or of more than the
-- address space, panics.
unfoldable pub take_bytes : ℤ → Handler (Unit {0})
take_bytes n w =
    if ltb_ℤ n (pos 0) || leb_ℤ (pos (2 ^ 48)) n
    then fault make_slice w
    else (ok tt, record w { reader = (read_full (pos_part n) w.reader).1 })

-- HandlePsyncSlave: the connection that its goroutine serves from then on, with what the reader holds.
unfoldable pub psync_slave : Conn → Handler Conn
psync_slave conn = do
  done ← write conn (codes "*3\r\n$5\r\nPSYNC\r\n$1\r\n?\r\n$2\r\n-1\r\n")
  if done
      then (do
        skip_line
        (text, error) ← read_line
        take_bytes (atoi (trim_space (trim_prefix b'$' text))).0
        store_info (codes "repl_offset") (number (pos 0))
        pure (record conn { silent = true }))
      else stop

-- ConnectToMaster behind its net.Dial.
unfoldable pub connect_to_master : Conn → Bytes → Handler Conn
connect_to_master conn port = do
  done ← write conn (codes "*1\r\n$4\r\nPING\r\n")
  if done then (do skip_line; call (replconf_slave conn port); psync_slave conn) else stop
