-- ===== src/Startup.antt =====
-- server.go and utils.go: main, up to its loop over net.Listener.Accept. What the flags hold after
-- flag.Parse is an argument, and the operating system is a parameter.
pub mod Manifest
pub mod Restart
use make_your_own_redis_go.Shared.{
  ℕ, zero, suc, ◌+◌, Bool, true, false, List, [], ◌∷◌, ◌++◌, Option, none, some, Bytes, codes, beq,
  line_feed, get_or, if◌then◌else◌,
}
use make_your_own_redis_go.Shared.Int.{ℤ}
use make_your_own_redis_go.Shared.Dict.{store}
use make_your_own_redis_go.Text.{itoa_ℤ}
use make_your_own_redis_go.Text.Words.{split, contains_text, fields}
use make_your_own_redis_go.Reader.{Reader}
use make_your_own_redis_go.Server.{Server, Conn, User, text}
use make_your_own_redis_go.Server.Handler.{
  World, Outcome, Fault, ok, returned, panic, blocked, spun, index_out_of_range,
}
use make_your_own_redis_go.Commands.Slave.{connect_to_master}
use make_your_own_redis_go.Aof.{aof_parser}
use make_your_own_redis_go.Rdb.{load_rdb}

pub record Flags : Type 0 where
  pub dir : Bytes
  pub dbfilename : Bytes
  pub port : ℤ
  pub replicaof : Bytes
  pub appendonly : Bytes
  pub appenddirname : Bytes
  pub appendfilename : Bytes
  pub appendfsync : Bytes

-- What main asks of the operating system: whether the port can be listened on, the connection to a
-- master with what it will deliver, filepath.Join, os.MkdirAll, os.ReadFile, os.WriteFile, os.Open and
-- os.OpenFile for appending, and the numbers of rand.Intn(62).
pub record Machine : Type 0 where
  pub listens : Bool
  pub dial : Bytes → Bytes → Option (Conn × Reader)
  pub join : Bytes → Bytes → Bytes
  pub make_dir : Bytes → Bool
  pub read_file : Bytes → Option Bytes
  pub write_file : Bytes → Bytes → Bool
  pub open_file : Bytes → Option Reader
  pub open_append : Bytes → Bool
  pub intn : ℕ → ℕ

-- The start goes on with a value, or the process has ended by log.Fatal or a panic; `endless` is a loop
-- that does not end.
pub data Boot (A : Type 0) : Type 0 where
  up : A → Boot A
  exited : Boot A
  crashed : Fault → Boot A
  endless : Boot A

infixl 5 ◌>>=◌ ◌>>◌
abbrev pub ◌>>=◌ : {A B : Type 0} → Boot A → (A → Boot B) → Boot B
up a >>= f = f a
exited >>= f = exited
crashed e >>= f = crashed e
endless >>= f = endless

abbrev pub ◌>>◌ : {B : Type 0} → Boot (Unit {0}) → Boot B → Boot B
m >> k = m >>= λ _. k

-- `if err != nil { log.Fatal }`
abbrev pub or_exit : Bool → Boot (Unit {0})
or_exit true = up tt
or_exit false = exited

abbrev pub or_endless : Option Server → Boot Server
or_endless none = endless
or_endless (some s) = up s

unfoldable pub environment : Flags → Server → Server
environment flags s = record s {
  env = store (codes "appendfsync") flags.appendfsync (
      store (codes "appendfilename") flags.appendfilename (
        store (codes "appenddirname") flags.appenddirname (
          store (codes "appendonly") flags.appendonly
            (store (codes "dbfilename") flags.dbfilename (store (codes "dir") flags.dir s.env)))));
}

unfoldable pub add_default_user : Server → Server
add_default_user s = record s {
  users = store (codes "default") (record { passwords = []; flags = codes "nopass" ∷ [] }) s.users;
}

unfoldable pub put_info : Bytes → Bytes → Server → Server
put_info key value s = record s { info = store key (text value) s.info }

abbrev pub charset : Bytes
charset = codes "abcdefghijklmnopqrstuvwxyzABCDEFGHIJKLMNOPQRSTUVWXYZ0123456789"

-- The bytes of RandomString from the `i`-th on.
unfoldable pub random_string : (ℕ → ℕ) → ℕ → ℕ → Bytes
random_string intn zero i = []
random_string intn (suc n) i = get_or charset (intn i) 0 ∷ random_string intn n (i + 1)

unfoldable pub become_master : Machine → Server → Server
unfolding put_info random_string
become_master m s = put_info (codes "master_repl_offset") (codes "0") (
    put_info (codes "master_replid") (random_string m.intn 40 0)
      (put_info (codes "role") (codes "master") s))

-- The connection that a goroutine of the replica serves, if the handshake has come so far.
abbrev pub Session : Type 0
Session = Option (Conn × Reader)

unfoldable pub connected : Outcome Conn × World → Boot (Server × Session)
connected (ok conn, w) = up (w.server, some (conn, w.reader))
connected (returned, w) = up (w.server, none)
connected (panic e, w) = crashed e
connected (blocked b, w) = endless
connected (spun, w) = endless

unfoldable pub dialled : Bytes → Server → Option (Conn × Reader) → Boot (Server × Session)
unfolding connected
dialled port s none = exited
dialled port s (some (conn, reader)) =
    connected (connect_to_master conn port (record { reader = reader; auth_user = []; server = s }))

-- strings.Split(*replicaof, " ") and its first two parts; without a second one the index panics.
unfoldable pub become_slave : Machine → Bytes → Server → List Bytes → Boot (Server × Session)
unfolding put_info dialled
become_slave m port s [] = crashed index_out_of_range
become_slave m port s (host ∷ []) = crashed index_out_of_range
become_slave m port s (host ∷ master_port ∷ more) =
    dialled port
      (put_info (codes "masterPort") master_port
        (put_info (codes "masterHost") host (put_info (codes "role") (codes "slave") s)))
      (m.dial host master_port)

unfoldable pub take_role : Flags → Machine → Server → Boot (Server × Session)
unfolding become_master become_slave
take_role flags m s =
    if beq flags.replicaof (codes "master")
    then up (become_master m s, none)
    else become_slave m (itoa_ℤ flags.port) s (split b' ' flags.replicaof)

-- `len(parts) >= 2 && parts[0] == "file"`
unfoldable pub named : List Bytes → Bytes → Bytes
named [] rest = rest
named (kind ∷ []) rest = rest
named (kind ∷ name ∷ more) rest = if beq kind (codes "file") then name else rest

-- The loop over the lines of the manifest: the first that names a file of type i.
unfoldable pub active_file : List Bytes → Bytes
unfolding named
active_file [] = []
active_file (line ∷ lines) =
    let rest = active_file lines in
    if contains_text (codes "type i") line then named (fields line) rest else rest

unfoldable pub manifest_name : Option Bytes → Bytes
manifest_name none = []
manifest_name (some content) = active_file (split line_feed content)

unfoldable pub first_file : Flags → Bytes
first_file flags = flags.appendfilename ++ codes ".1.incr.aof"

unfoldable pub manifest_text : Bytes → Bytes
manifest_text name = codes "file " ++ (name ++ codes " seq 1 type i\n")

-- The name of the active file; without one in the manifest a manifest is written.
unfoldable pub choose_file : Flags → Machine → Bytes → Bytes → Boot Bytes
unfolding first_file manifest_text
choose_file flags m manifest [] = do
  or_exit (m.write_file manifest (manifest_text (first_file flags)))
  up (first_file flags)
choose_file flags m manifest (c ∷ name) = up (c ∷ name)

unfoldable pub parse_file : Option Reader → Server → Boot Server
parse_file none s = up s
parse_file (some r) s = or_endless (aof_parser r s)

unfoldable pub start_aof : Flags → Machine → Server → Boot Server
unfolding choose_file manifest_name parse_file
start_aof flags m s = do
  let dir = m.join flags.dir flags.appenddirname
  or_exit (m.make_dir dir)
  let manifest = m.join dir (flags.appendfilename ++ codes ".manifest")
  name ← choose_file flags m manifest (manifest_name (m.read_file manifest))
  let path = m.join dir name
  s' ← parse_file (m.open_file path) s
  or_exit (m.open_append path)
  up (record s' { aof = some [] })

unfoldable pub load_data : Flags → Machine → Server → Boot Server
unfolding start_aof
load_data flags m s =
    if beq flags.appendonly (codes "yes")
    then start_aof flags m s
    else or_endless
        (load_rdb flags.dir flags.dbfilename (m.open_file (m.join flags.dir flags.dbfilename)) s)

-- main, up to its loop: the server, and the session of a replica with its master.
unfoldable pub start : Flags → Machine → Server → Boot (Server × Session)
unfolding environment add_default_user take_role load_data
start flags m s = do
  or_exit m.listens
  (s', session) ← take_role flags m (add_default_user (environment flags s))
  s'' ← load_data flags m s'
  up (s'', session)
