-- ===== src/Server.antt =====
-- redis-starter-go/app/structures.go and the package variables of server.go: the state of one server
-- process, with what the handlers see of the outside (the clock, the connections, the AOF file).
pub mod Handler
pub mod Keeps
pub mod Arguments
pub mod Settles
pub mod AnyUser
pub mod Output
use make_your_own_redis_go.Shared.{
  ℕ, Bool, not, ◌&&◌, if◌then◌else◌, List, [], Option, none, Bytes, ◌==◌,
}
use make_your_own_redis_go.Shared.Int.{ℤ, pos}
use make_your_own_redis_go.Shared.Dict.{Dict}
use make_your_own_redis_go.Float.{Float64}

pub record User : Type 0 where
  pub passwords : List Bytes
  pub flags : List Bytes

-- A client that waits in BLPOP is the channel, by its number, that it waits on.
pub record LockableList : Type 0 where
  pub elements : List Bytes
  pub clients : List ℕ

-- A net.Conn; `silent` says that it is wrapped in a SilentConn.
pub record Conn : Type 0 where
  pub id : ℕ
  pub silent : Bool

-- `==` on two values of the interface net.Conn.
unfoldable pub conn_eq : Conn → Conn → Bool
conn_eq a b = a.id == b.id && (if a.silent then b.silent else not b.silent)

pub record Replica : Type 0 where
  pub conn : Conn
  pub offset : ℤ

pub record SortedSetElement : Type 0 where
  pub name : Bytes
  pub score : Float64

-- Of the embedded RWMutex: the read locks that are held, and whether a writer holds it or waits for it.
pub record SortedSet : Type 0 where
  pub elements : Dict Float64
  pub order : List SortedSetElement
  pub readers : ℕ
  pub writer : Bool

-- The values of the map ServerInfo are strings and integers.
pub data InfoValue : Type 0 where
  text : Bytes → InfoValue
  number : ℤ → InfoValue

-- A goroutine that deletes `key` once its context is done.
pub record Timer : Type 0 where
  pub key : Bytes
  pub due : ℤ

-- `sent` holds what is in the buffers of the channels of BLPOP, `output` what was written to the
-- connections, the last write at the end, and `dead` the connections on which writes fail.
pub record Server : Type 0 where
  pub memory : Dict Bytes
  pub users : Dict User
  pub lists : Dict LockableList
  pub env : Dict Bytes
  pub info : Dict InfoValue
  pub replicas : List Replica
  pub master_offset : ℤ
  pub zsets : Dict SortedSet
  pub aof : Option Bytes
  pub timers : List Timer
  pub now : ℤ
  pub sent : List (ℕ × Bytes)
  pub next_channel : ℕ
  pub output : List (ℕ × Bytes)
  pub dead : List ℕ

-- A process in which nothing has been stored.
abbrev pub blank : Server
blank = record {
  memory = [];
  users = [];
  lists = [];
  env = [];
  info = [];
  replicas = [];
  master_offset = pos 0;
  zsets = [];
  aof = none;
  timers = [];
  now = pos 0;
  sent = [];
  next_channel = 0;
  output = [];
  dead = [];
}

-- What the handlers use of packages outside this repository's code and of the floating-point and hash
-- algorithms of Go's library: hex(sha256(password)), strconv.ParseFloat and strconv.FormatFloat.
pub record Library : Type 0 where
  pub sha256_hex : Bytes → Bytes
  pub parse_float : Bytes → Float64
  pub format_float : Float64 → Bytes
