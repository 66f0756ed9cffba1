-- ===== src/Tests.antt =====
-- Concrete servers, sessions and library functions, on which the child modules run the theorems.
pub mod Sessions
pub mod Sets
pub mod Places
pub mod Queues
pub mod Users
pub mod Files
pub mod Boots
pub mod Steps
use make_your_own_redis_go.Shared.{
  ℕ, ◌+◌, ◌*◌, false, List, [], ◌∷◌, ◌++◌, none, some, Bytes, codes, beq, if◌then◌else◌,
}
use make_your_own_redis_go.Shared.Int.{ℤ, pos}
use make_your_own_redis_go.Float.{Float64}
use make_your_own_redis_go.Reader.{Reader, eof, broken}
use make_your_own_redis_go.Geo.{Arithmetic}
use make_your_own_redis_go.Server.{Server, Conn, User, LockableList, Library, blank}
use make_your_own_redis_go.Server.Handler.{World}
use make_your_own_redis_go.Commands.Geo.{Formats}

-- 1.0, 1.5 and 2.5.
abbrev pub one : Float64
one = 0x3ff0000000000000

abbrev pub low : Float64
low = 0x3ff8000000000000

abbrev pub high : Float64
high = 0x4004000000000000

abbrev pub library : Library
library = record {
  sha256_hex = λ s. s ++ codes "#";
  parse_float = λ s. if beq s (codes "1.5") then low else high;
  format_float = λ x. if beq [] [] then codes "1.5" else codes "2.5";
}

-- An arithmetic in which every operation returns a fixed value.
abbrev pub arithmetic : Arithmetic
arithmetic = record {
  add = λ a b. a;
  sub = λ a b. a;
  mul = λ a b. a;
  div = λ a b. a;
  sin = λ a. a;
  cos = λ a. a;
  asin = λ a. a;
  sqrt = λ a. a;
  of_uint = λ n. n;
  to_uint32 = λ a. 7;
  to_uint64 = λ a. 7;
  literal = λ s. one;
}

abbrev pub formats : Formats
formats = record { fixed5 = λ x. codes "1.50000"; verb_f = λ x. codes "1.500000" }

abbrev pub client : Conn
client = record { id = 1; silent = false }

abbrev pub empty_reader : Reader
empty_reader = record { buffered = []; pending = []; failure = eof }

-- A client that sends PING and then closes the connection.
abbrev pub ping_reader : Reader
ping_reader = record {
  buffered = [];
  pending = codes "*1\r\n$4\r\nPI" ∷ codes "NG\r\n" ∷ [];
  failure = eof;
}

-- A client that adds an element to a sorted set.
abbrev pub zadd_reader : Reader
zadd_reader = record ping_reader {
  pending = codes "ZADD\r\n$5\r\ntowns\r\n$3\r\n1.5\r\n$5\r\nparis\r\n" ∷ [];
}

abbrev pub reset_reader : Reader
reset_reader = record ping_reader { failure = broken }

-- A master with the default user, one key and a list on which two clients wait.
abbrev pub master : Server
master = record blank {
  memory = (codes "city", codes "Iasi") ∷ [];
  users = (codes "default", record { passwords = []; flags = codes "nopass" ∷ [] }) ∷ [];
  lists = (codes "jobs", record { elements = []; clients = 4 ∷ 9 ∷ [] }) ∷ [];
}

abbrev pub session : World
session = record { reader = empty_reader; auth_user = codes "default"; server = master }

abbrev pub stranger : World
stranger = record session { auth_user = [] }
