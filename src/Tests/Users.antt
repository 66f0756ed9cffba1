-- ===== src/Tests/Users.antt =====
-- The theorems on users and on replication at concrete inputs.
use mathlib.Core.List.{Mem}
use make_your_own_redis_go.Shared.{◌⊎◌, List, true, ◌≡◌, refl, ◌++◌, [], ◌∷◌, codes, beq, arith}
use make_your_own_redis_go.Shared.Int.{pos}
use make_your_own_redis_go.Shared.Dict.{load, Every-nil}
use make_your_own_redis_go.Resp.{bulk}
use make_your_own_redis_go.Text.{trim_space}
use make_your_own_redis_go.Server.{Server, Replica, User, number, text}
use make_your_own_redis_go.Server.Handler.{World, ok}
use make_your_own_redis_go.Server.Arguments.{IsArgument, feed}
use make_your_own_redis_go.Commands.{propagate_command}
use make_your_own_redis_go.Commands.Acl.{set_user, handle_auth}
use make_your_own_redis_go.Commands.Offsets.{Propagates, propagate_command-Propagates}
use make_your_own_redis_go.Commands.Acks.{Noted, handle_replconf-ack}
use make_your_own_redis_go.Commands.Replication.{handle_replconf}
use make_your_own_redis_go.Text.{itoa}
use make_your_own_redis_go.Server.{Conn}
use make_your_own_redis_go.Commands.Passwords.{
  accepted, refused, password_rule, user-handle_auth, user-set_user-handle_auth,
}
use make_your_own_redis_go.Commands.ZSets.Indexed.{IsIndexed}
use make_your_own_redis_go.Serve.{serve_commands}
use make_your_own_redis_go.Serve.Indexed.{AllIndexed}
use make_your_own_redis_go.Serve.Invariant.{serve_commands-AllIndexed}
use make_your_own_redis_go.Tests.{
  library, arithmetic, formats, client, zadd_reader, master, session, stranger,
}

default-IsArgument : IsArgument (codes "default")
unfolding trim_space
default-IsArgument = record { one_line = ground arith; trimmed = refl }

secret-IsArgument : IsArgument (codes "secret")
unfolding trim_space
secret-IsArgument = record { one_line = ground arith; trimmed = refl }

-- The default user, who has no password yet, and the same with one.
abbrev open_user : User
open_user = record { passwords = []; flags = codes "nopass" ∷ [] }

abbrev closed_user : User
closed_user = record { passwords = codes "secret#" ∷ []; flags = [] }

abbrev closed : World
closed = record stranger { server = record master { users = (codes "default", closed_user) ∷ [] } }

user-handle_auth_example :
    (Mem (library.sha256_hex (codes "secret")) closed_user.passwords
      × (handle_auth library client
            (feed (bulk (codes "default") ++ (bulk (codes "secret") ++ [])) closed)
          ≡ accepted client (codes "default") (feed [] closed)))
    ⊎ ((¬ (Mem (library.sha256_hex (codes "secret")) closed_user.passwords))
        × (handle_auth library client
              (feed (bulk (codes "default") ++ (bulk (codes "secret") ++ [])) closed)
            ≡ refused client (feed [] closed)))
unfolding load beq
user-handle_auth_example =
    user-handle_auth library client closed (codes "default") (codes "secret") [] closed_user
      default-IsArgument secret-IsArgument refl

abbrev after_rule : Server
after_rule =
    (set_user library client
      (feed (password_rule (codes "default") (codes "secret") []) session)).1.server

user-set_user-handle_auth_example :
    (handle_auth library client (
      feed
        (bulk (codes "default") ++ (bulk (codes "secret") ++ []))
        (record stranger { server = after_rule }))).1.auth_user
    ≡ codes "default"
unfolding load beq
user-set_user-handle_auth_example =
    user-set_user-handle_auth library client session (codes "default") (codes "secret") [] open_user
      default-IsArgument secret-IsArgument refl client (record stranger { server = after_rule }) []
      refl

abbrev replica : Replica
replica = record { conn = client; offset = pos 0 }

abbrev with_replica : World
with_replica = record session { server = record master { replicas = replica ∷ [] } }

propagate_command-Propagates_example :
    Propagates
      (replica ∷ [])
      (codes "SET" ∷ codes "a" ∷ codes "1" ∷ [])
      with_replica.server
      (propagate_command (codes "SET" ∷ codes "a" ∷ codes "1" ∷ []) with_replica).1.server
propagate_command-Propagates_example =
    propagate_command-Propagates (codes "SET" ∷ codes "a" ∷ codes "1" ∷ []) replica [] with_replica
      refl

abbrev slave : World
slave = record session {
  server = record master {
    info = (codes "role", text (codes "slave")) ∷ (codes "repl_offset", number (pos 10)) ∷ [];
  };
}

serve_commands-AllIndexed_example :
    AllIndexed (serve_commands library arithmetic formats client zadd_reader master).1.server.zsets
serve_commands-AllIndexed_example =
    serve_commands-AllIndexed library arithmetic formats client zadd_reader master
      (Every-nil IsIndexed)

abbrev silent_link : Conn
silent_link = record { id = 7; silent = true }

abbrev lead : World
lead = record with_replica {
  server = record (with_replica.server) { info = (codes "role", text (codes "master")) ∷ [] };
}

handle_replconf-ack_example :
    (replicas : List Replica) × Noted client (pos 47) lead.server.replicas replicas
    × (handle_replconf client (feed (bulk (codes "ACK") ++ (bulk (itoa 47) ++ [])) lead)
        ≡ (ok tt, record (feed [] lead) { server = record (lead.server) { replicas = replicas } }))
unfolding load beq
handle_replconf-ack_example = handle_replconf-ack client 47 [] lead (omega arith) refl
