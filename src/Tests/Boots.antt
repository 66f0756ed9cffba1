-- ===== src/Tests/Boots.antt =====
-- The theorems on the start of a server, from a file or beside a master, at concrete inputs.
use make_your_own_redis_go.Shared.{
  ◌≡◌, ◌≢◌, refl, ◌&◌, true, false, ◌++◌, List, [], ◌∷◌, some, none, Bytes, codes, beq, arith, take,
  drop, if◌then◌else◌,
}
use make_your_own_redis_go.Shared.Int.{pos}
use make_your_own_redis_go.Shared.Dict.{load, store}
use make_your_own_redis_go.Text.{trim_space, itoa, is_space}
use make_your_own_redis_go.Reader.{Reader, stream, joined}
use make_your_own_redis_go.Resp.{command, array_header, bulks, bulk}
use make_your_own_redis_go.Server.{Conn, Server, text}
use make_your_own_redis_go.Server.Handler.{World, ok, contains}
use make_your_own_redis_go.Server.Arguments.{IsArgument, feed}
use make_your_own_redis_go.Commands.Replication.{
  hex_decode, empty_rdb_hex, rdb_payload, handle_psync_master,
}
use make_your_own_redis_go.Commands.Slave.{connect_to_master}
use make_your_own_redis_go.Commands.Slave.Psync.{full_resync_line, after_psync, greetings}
use make_your_own_redis_go.Commands.Slave.Handshake.{
  after_full_resync, connect_to_master-handle_psync_master,
}
use make_your_own_redis_go.Aof.RoundTrip.{log}
use make_your_own_redis_go.Rdb.{load_rdb}
use make_your_own_redis_go.Rdb.Ends.{load_rdb-ends}
use make_your_own_redis_go.Rdb.Chunks.{load_rdb-Agree}
use make_your_own_redis_go.Rdb.Format.{
  Entry, note, database, sizes, string, expiring, low_bytes, rdb_file,
}
use make_your_own_redis_go.Rdb.RoundTrip.{load_rdb-restores}
use make_your_own_redis_go.Startup.{Flags, Machine, up, start, manifest_text}
use make_your_own_redis_go.Startup.Restart.{IsReady, fresh_master, start-restores}
use make_your_own_redis_go.Tests.{empty_reader, master, session, client}

-- A string, one that has expired and one that has not, on a server that starts 5 seconds after 1970.
abbrev entries : List Entry
entries =
    note (codes "redis-ver") (codes "7.2.0")
    ∷ database 0
    ∷ sizes 300 20000
    ∷ string (codes "city") (codes "Cluj")
    ∷ expiring 4000 (codes "old") (codes "gone")
    ∷ expiring 9000 (codes "new") (codes "here")
    ∷ []

abbrev early : Server
early = record master { now = pos 5000000000 }

-- The file, read in two parts.
abbrev rdb_reader : Reader
rdb_reader = record empty_reader {
  pending = take 13 (rdb_file entries []) ∷ drop 13 (rdb_file entries []) ∷ [];
}

load_rdb-restores_example :
    load_rdb (codes "data") (codes "dump.rdb") (some rdb_reader) early
    ≡ some (record early {
      memory = (codes "city", codes "Cluj") ∷ (codes "new", codes "here") ∷ [];
      timers = (record { key = codes "new"; due = pos 9000000000 }) ∷ [];
    })
unfolding store beq stream joined low_bytes
load_rdb-restores_example =
    load_rdb-restores b'd' b'd' (codes "ata") (codes "ump.rdb") 5000000000 entries [] rdb_reader
      early refl (omega arith) (omega arith) refl

load_rdb-ends_example : load_rdb (codes "data") (codes "dump.rdb") (some rdb_reader) early ≢ none
load_rdb-ends_example = load_rdb-ends (codes "data") (codes "dump.rdb") (some rdb_reader) early

abbrev whole_reader : Reader
whole_reader = record empty_reader { buffered = rdb_file entries [] }

load_rdb-Agree_example :
    load_rdb (codes "data") (codes "dump.rdb") (some rdb_reader) early
    ≡ load_rdb (codes "data") (codes "dump.rdb") (some whole_reader) early
unfolding stream joined low_bytes
load_rdb-Agree_example =
    load_rdb-Agree (codes "data") (codes "dump.rdb") rdb_reader whole_reader early (refl, refl)

abbrev head : World
head = record session {
  server = record master {
    info =
        (codes "role", text (codes "master"))
        ∷ (codes "master_replid", text (codes "8371"))
        ∷ (codes "master_repl_offset", text (codes "0"))
        ∷ [];
  };
}

abbrev uplink : Conn
uplink = record { id = 9; silent = false }

connect_to_master-handle_psync_master_example :
    (handle_psync_master client (feed (codes "$1\r\n?\r\n$2\r\n-1\r\n" ++ codes "*1\r\n") head)
      ≡ (ok tt, after_full_resync client (codes "8371") (codes "0") (codes "*1\r\n") head))
    × (connect_to_master uplink (codes "6380") (
          feed
            (codes "+PONG\r\n+OK\r\n+OK\r\n"
              ++ (full_resync_line (codes "8371") (codes "0")
                  ++ (rdb_payload (hex_decode empty_rdb_hex) ++ codes "*3\r\n")))
            session)
        ≡ (
          ok (record { id = 9; silent = true }),
          after_psync uplink (codes "*3\r\n") (greetings uplink (codes "6380") session),
        ))
unfolding load beq contains
connect_to_master-handle_psync_master_example =
    connect_to_master-handle_psync_master client uplink (codes "6380") (codes "8371") (codes "0")
      (codes "*1\r\n") (codes "*3\r\n") head session (record { loud = refl; alive = refl })
      (record { loud = refl; alive = refl }) (omega arith) (omega arith) refl refl refl

abbrev flags : Flags
flags = record {
  dir = codes "/data";
  dbfilename = codes "dump.rdb";
  port = pos 6379;
  replicaof = codes "master";
  appendonly = codes "yes";
  appenddirname = codes "aof";
  appendfilename = codes "a";
  appendfsync = codes "always";
}

abbrev saved : List (Bytes × Bytes)
saved = (codes "city", codes "Cluj") ∷ []

abbrev saved_reader : Reader
saved_reader = record empty_reader { pending = take 9 (log saved) ∷ drop 9 (log saved) ∷ [] }

-- A machine with a manifest and one append-only file.
abbrev machine : Machine
machine = record {
  listens = true;
  dial = λ host port. none;
  join = λ a b. a ++ b'/' ∷ b;
  make_dir = λ path. true;
  read_file = λ path.
      if beq path (codes "/data/aof/a.manifest")
      then some (manifest_text (codes "a.1.incr.aof"))
      else none;
  write_file = λ path content. true;
  open_file = λ path. if beq path (codes "/data/aof/a.1.incr.aof") then some saved_reader else none;
  open_append = λ path. true;
  intn = λ i. i;
}

machine-IsReady : IsReady flags machine (codes "a.1.incr.aof") saved_reader
unfolding beq
machine-IsReady = record {
  master = refl;
  append = refl;
  listens = refl;
  makes = refl;
  manifest = refl;
  opens = refl;
  appends = refl;
}

city-IsArgument : IsArgument (codes "city")
unfolding trim_space
city-IsArgument = record { one_line = ground arith; trimmed = refl }

cluj-IsArgument : IsArgument (codes "Cluj")
unfolding trim_space
cluj-IsArgument = record { one_line = ground arith; trimmed = refl }

start-restores_example :
    start flags machine master
    ≡ up (
      record (fresh_master flags machine master) {
        memory = (codes "city", codes "Cluj") ∷ [];
        aof = some [];
      },
      none,
    )
unfolding store beq stream joined command array_header bulks bulk itoa is_space
start-restores_example =
    start-restores flags machine b'a' (codes ".1.incr.aof") saved_reader saved master
      machine-IsReady
      ((refl & refl & refl & refl & refl & refl & refl & refl & refl & refl & refl & refl & tt))
      refl ((city-IsArgument, cluj-IsArgument) & tt)
