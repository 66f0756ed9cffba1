-- ===== src/Tests/Files.antt =====
-- The theorems on the append-only file at concrete inputs.
use make_your_own_redis_go.Shared.{
  ◌≡◌, ◌≢◌, refl, ◌&◌, ◌++◌, List, [], ◌∷◌, some, none, Bytes, codes, beq, arith, take, drop,
}
use make_your_own_redis_go.Shared.Dict.{load, store}
use make_your_own_redis_go.Text.{trim_space, itoa}
use make_your_own_redis_go.Reader.{Reader, stream, joined}
use make_your_own_redis_go.Resp.{command, array_header, bulks, bulk}
use make_your_own_redis_go.Server.{text}
use make_your_own_redis_go.Server.Handler.{World}
use make_your_own_redis_go.Server.Arguments.{IsArgument}
use make_your_own_redis_go.Aof.{aof_parser}
use make_your_own_redis_go.Aof.RoundTrip.{aof_parser-ends, log, set_command}
use make_your_own_redis_go.Aof.Chunks.{aof_parser-restores}
use make_your_own_redis_go.Aof.Log.{aof-after_set}
use make_your_own_redis_go.Commands.{append_bytes}
use make_your_own_redis_go.Commands.Strings.{after_set}
use make_your_own_redis_go.Tests.{empty_reader, zadd_reader, master, session}

city-IsArgument : IsArgument (codes "city")
unfolding trim_space
city-IsArgument = record { one_line = ground arith; trimmed = refl }

cluj-IsArgument : IsArgument (codes "Cluj")
unfolding trim_space
cluj-IsArgument = record { one_line = ground arith; trimmed = refl }

abbrev pairs : List (Bytes × Bytes)
pairs = (codes "river", codes "Cluj") ∷ (codes "city", codes "Cluj") ∷ []

river-IsArgument : IsArgument (codes "river")
unfolding trim_space
river-IsArgument = record { one_line = ground arith; trimmed = refl }

-- The log of the two SETs, read in two parts.
abbrev log_reader : Reader
log_reader = record empty_reader { pending = take 30 (log pairs) ∷ drop 30 (log pairs) ∷ [] }

aof_parser-restores_example :
    aof_parser log_reader master
    ≡ some (record master {
      memory = (codes "city", codes "Cluj") ∷ (codes "river", codes "Cluj") ∷ [];
    })
unfolding store beq stream joined command array_header bulks bulk itoa
aof_parser-restores_example =
    aof_parser-restores pairs log_reader master refl
      ((river-IsArgument, cluj-IsArgument) & (city-IsArgument, cluj-IsArgument) & tt)

aof_parser-ends_example : aof_parser zadd_reader master ≢ none
aof_parser-ends_example = aof_parser-ends zadd_reader master

abbrev logging : World
logging = record session {
  server = record master {
    info = (codes "role", text (codes "master")) ∷ [];
    aof = some (codes "old\r\n");
  };
}

aof-after_set_example :
    (after_set (codes "city") (codes "Cluj") logging).1.server.aof
    ≡ some (codes "old\r\n" ++ command (set_command (codes "city", codes "Cluj")))
unfolding load beq append_bytes
aof-after_set_example = aof-after_set (codes "city") (codes "Cluj") logging refl
