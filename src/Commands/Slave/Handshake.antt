-- ===== src/Commands/Slave/Handshake.antt =====
-- The handshake of a replica with its master: what HandlePsyncMaster sends is what ConnectToMaster reads.
use make_your_own_redis_go.Shared.{
  ◌^◌, ◌<◌, ◌≡◌, refl, ◌∙◌, true, [], ◌∷◌, ◌++◌, some, Bytes, codes, arith, line_feed, Lacks,
  length, beq,
}
use make_your_own_redis_go.Shared.Int.{pos}
use make_your_own_redis_go.Shared.Dict.{load}
use make_your_own_redis_go.Server.{Conn, text}
use make_your_own_redis_go.Server.Handler.{World, ok}
use make_your_own_redis_go.Server.Arguments.{feed, skip_line-feed}
use make_your_own_redis_go.Commands.{info_string, string_of}
use make_your_own_redis_go.Commands.Replication.{
  hex_decode, empty_rdb_hex, rdb_payload, add_replica, full_resync, handle_psync_master,
  replconf_slave,
}
use make_your_own_redis_go.Commands.Slave.{resume, call, psync_slave, connect_to_master}
use make_your_own_redis_go.Commands.Slave.Psync.{
  psync_slave-reads, IsLive, write_live, full_resync_line, after_psync, listening, capabilities,
  sent, greetings,
}

module _ (conn : Conn) (port rest : Bytes) (w : World) (live : IsLive conn w.server.dead) where
  replconf_slave-reads :
      replconf_slave conn port (feed (codes "+OK\r\n+OK\r\n" ++ rest) w)
      ≡ (ok tt, feed rest (sent conn capabilities (sent conn (listening port) w)))
  unfolding replconf_slave
  replconf_slave-reads =
      let first = sent conn (listening port) w in
      rw
        (
          write_live conn (listening port) (feed (codes "+OK\r\n+OK\r\n" ++ rest) w) live,
          skip_line-feed (codes "+OK\r") (codes "+OK\r\n" ++ rest) first (omega arith),
          write_live conn capabilities (feed (codes "+OK\r\n" ++ rest) first) live,
          skip_line-feed (codes "+OK\r") rest (sent conn capabilities first) (omega arith),
        )
        refl

module _ (conn : Conn) (port rest : Bytes) (w : World) (live : IsLive conn w.server.dead) where
  -- Up to PSYNC.
  connect_to_master-greets :
      connect_to_master conn port (feed (codes "+PONG\r\n+OK\r\n+OK\r\n" ++ rest) w)
      ≡ psync_slave conn (feed rest (greetings conn port w))
  unfolding connect_to_master call resume
  connect_to_master-greets =
      let first = sent conn (codes "*1\r\n$4\r\nPING\r\n") w in
      rw
        (
          write_live conn (codes "*1\r\n$4\r\nPING\r\n")
              (feed (codes "+PONG\r\n+OK\r\n+OK\r\n" ++ rest) w) live,
          skip_line-feed (codes "+PONG\r") (codes "+OK\r\n+OK\r\n" ++ rest) first (omega arith),
          replconf_slave-reads conn port rest first live,
        )
        refl

-- The master's side: PSYNC is answered by the line and the file, and the connection becomes a replica.
abbrev pub after_full_resync : Conn → Bytes → Bytes → Bytes → World → World
after_full_resync conn replid offset rest w =
    let told =
      sent conn (rdb_payload (hex_decode empty_rdb_hex))
        (sent conn (full_resync_line replid offset) w) in
    feed rest (record told {
      server = record (told.server) {
        replicas = w.server.replicas ++ (record { conn = conn; offset = pos 0 }) ∷ [];
      };
    })

handle_psync_master-answers :
    (conn : Conn) (replid offset rest : Bytes) (w : World)
    → IsLive conn w.server.dead
    → load (codes "role") w.server.info ≡ some (text (codes "master"))
    → load (codes "master_replid") w.server.info ≡ some (text replid)
    → load (codes "master_repl_offset") w.server.info ≡ some (text offset)
    → handle_psync_master conn (feed (codes "$1\r\n?\r\n$2\r\n-1\r\n" ++ rest) w)
      ≡ (ok tt, after_full_resync conn replid offset rest w)
unfolding handle_psync_master full_resync info_string string_of beq add_replica
handle_psync_master-answers conn replid offset rest w live role id at =
    rw
      (
        role,
        skip_line-feed (codes "$1\r") (codes "?\r\n$2\r\n-1\r\n" ++ rest) w (omega arith),
        skip_line-feed (codes "?\r") (codes "$2\r\n-1\r\n" ++ rest) w (omega arith),
        skip_line-feed (codes "$2\r") (codes "-1\r\n" ++ rest) w (omega arith),
        skip_line-feed (codes "-1\r") rest w (omega arith),
        id,
        at,
        write_live conn (full_resync_line replid offset) (feed rest w) live,
        write_live conn (rdb_payload (hex_decode empty_rdb_hex))
            (feed rest (sent conn (full_resync_line replid offset) w)) live,
      )
      refl

-- A replica that connects to a master on live connections: the master answers PSYNC by a line and an
-- RDB file, and the replica, which reads that answer behind the three answers to PING and REPLCONF,
-- goes on to serve the connection in silence from the byte behind the file on, with an offset of 0.
-- The replication id and the offset of the master are texts of one line.
pub connect_to_master-handle_psync_master :
    (here there : Conn) (port replid offset more rest : Bytes) (master replica : World)
    → IsLive here master.server.dead
    → IsLive there replica.server.dead
    → Lacks line_feed replid
    → Lacks line_feed offset
    → load (codes "role") master.server.info ≡ some (text (codes "master"))
    → load (codes "master_replid") master.server.info ≡ some (text replid)
    → load (codes "master_repl_offset") master.server.info ≡ some (text offset)
    → (handle_psync_master here (feed (codes "$1\r\n?\r\n$2\r\n-1\r\n" ++ more) master)
        ≡ (ok tt, after_full_resync here replid offset more master))
      × (connect_to_master there port (
            feed
              (codes "+PONG\r\n+OK\r\n+OK\r\n"
                ++ (full_resync_line replid offset
                    ++ (rdb_payload (hex_decode empty_rdb_hex) ++ rest)))
              replica)
          ≡ (
            ok (record there { silent = true }),
            after_psync there rest (greetings there port replica),
          ))
connect_to_master-handle_psync_master here there port replid offset more rest master replica live
      live' one two role id at =
    (
      handle_psync_master-answers here replid offset more master live role id at,
      connect_to_master-greets there port
            (full_resync_line replid offset ++ (rdb_payload (hex_decode empty_rdb_hex) ++ rest))
            replica live'
          ∙ psync_slave-reads there (hex_decode empty_rdb_hex) rest replid offset
              (greetings there port replica) live' one two small_file,
    )
  where
    small_file : length (hex_decode empty_rdb_hex) < 2 ^ 48
    small_file = unfold hex_decode in omega arith
