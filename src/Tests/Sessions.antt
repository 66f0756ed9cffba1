-- ===== src/Tests/Sessions.antt =====
-- The theorems on the loop of a connection, on access and on the keyspace, at concrete inputs.
use make_your_own_redis_go.Shared.{
  ◌≡◌, ◌≢◌, refl, ◌++◌, ◌⊎◌, Bytes, [], none, some, codes, beq, arith, true,
}
use make_your_own_redis_go.Shared.Int.{pos}
use make_your_own_redis_go.Shared.Dict.{load}
use make_your_own_redis_go.Resp.{bulk}
use make_your_own_redis_go.Text.{itoa, atoi, trim_space}
use make_your_own_redis_go.Text.Decimal.{atoi-itoa}
use make_your_own_redis_go.Server.Handler.{World, spun}
use make_your_own_redis_go.Server.Arguments.{IsArgument, feed}
use make_your_own_redis_go.Server.AnyUser.{AnyUser}
use make_your_own_redis_go.Commands.{check_auth}
use make_your_own_redis_go.Commands.Strings.{handle_set, handle_echo}
use make_your_own_redis_go.Commands.Strings.Memory.{
  load-handle_set, Replies, framed, handle_get_reply, handle_get-handle_set,
}
use make_your_own_redis_go.Serve.{handlers, run_line, serve_commands}
use make_your_own_redis_go.Serve.Spelling.{Spells, run_line-Spells}
use make_your_own_redis_go.Serve.Access.{
  Each, guarded, unguarded, denied, guarded_refuse, unguarded_serve_anyone,
}
use make_your_own_redis_go.Serve.Termination.{serve_commands-ends}
use make_your_own_redis_go.Tests.{
  library, arithmetic, formats, client, reset_reader, master, session, stranger,
}

-- A connection that is reset behind its first command.
serve_commands-ends_example :
    (serve_commands library arithmetic formats client reset_reader master).0 ≢ spun
serve_commands-ends_example =
    serve_commands-ends library arithmetic formats client reset_reader master

guarded_refuse_example :
    Each guarded
      (λ name. run_line library arithmetic formats client name stranger ≡ denied client stranger)
unfolding check_auth beq
guarded_refuse_example = guarded_refuse client stranger refl library arithmetic formats

unguarded_serve_anyone_example :
    Each unguarded (λ name. AnyUser (run_line library arithmetic formats client name))
unguarded_serve_anyone_example = unguarded_serve_anyone client library arithmetic formats

city-IsArgument : IsArgument (codes "city")
unfolding trim_space
city-IsArgument = record { one_line = ground arith; trimmed = refl }

bucharest-IsArgument : IsArgument (codes "Cluj Napoca")
unfolding trim_space
bucharest-IsArgument = record { one_line = ground arith; trimmed = refl }

load-handle_set_example :
    load
      (codes "city")
      (handle_set client
        (feed (bulk (codes "city") ++ (bulk (codes "Cluj Napoca") ++ [])) session)).1.server.memory
    ≡ some (codes "Cluj Napoca")
unfolding check_auth beq
load-handle_set_example =
    load-handle_set client session refl (codes "city") (codes "Cluj Napoca") [] (codes "city")
      city-IsArgument bucharest-IsArgument

authenticated : check_auth session.auth_user ≡ true
unfolding check_auth beq
authenticated = refl

handle_get_reply_example :
    ((load (codes "city") session.server.memory ≡ none)
      × Replies client session (codes "city") (codes "*1\r\n") (codes "$-1\r\n"))
    ⊎ ((value : Bytes) × (load (codes "city") session.server.memory ≡ some value)
        × Replies client session (codes "city") (codes "*1\r\n") (framed value))
handle_get_reply_example =
    handle_get_reply client session authenticated (codes "city") (codes "*1\r\n") city-IsArgument

-- The session that SET leaves reads the value back.
abbrev after_set_city : World
after_set_city =
    (handle_set client (feed (bulk (codes "city") ++ (bulk (codes "Cluj Napoca") ++ [])) session)).1

handle_get-handle_set_example :
    Replies client
      (record session { server = after_set_city.server })
      (codes "city")
      []
      (framed (codes "Cluj Napoca"))
handle_get-handle_set_example =
    handle_get-handle_set client client session (record session { server = after_set_city.server })
      (codes "city") (codes "Cluj Napoca") [] [] authenticated authenticated city-IsArgument
      bucharest-IsArgument refl

echo-handler :
    load (codes "ECHO") (handlers library arithmetic formats client) ≡ some (handle_echo client)
unfolding load beq handlers
echo-handler = refl

echo-Spells : Spells (codes "eChO") (codes "ECHO")
echo-Spells = ground arith

run_line-Spells_example :
    run_line library arithmetic formats client (codes "eChO" ++ codes "\r\n") ≡ handle_echo client
run_line-Spells_example =
    run_line-Spells library arithmetic formats client (codes "eChO") (codes "ECHO") (codes "\r\n")
      (handle_echo client) echo-Spells (ground arith) echo-handler

atoi-itoa_example : atoi (codes "6379") ≡ (pos 6379, true)
unfolding itoa
atoi-itoa_example = atoi-itoa 6379 (omega arith)
