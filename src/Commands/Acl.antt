-- ===== src/Commands/Acl.antt =====
-- handlers.go: ACL and AUTH.
use make_your_own_redis_go.Shared.{
  Bool, false, ◌||◌, List, [], ◌∷◌, ◌++◌, Option, none, some, Bytes, codes, beq, if◌then◌else◌,
  length, has_prefix, trim_prefix,
}
use make_your_own_redis_go.Shared.Dict.{load, store}
use make_your_own_redis_go.Text.{trim_space, to_upper}
use make_your_own_redis_go.Resp.{bulk, bulks, array_header, line}
use make_your_own_redis_go.Server.{Conn, User, Library}
use make_your_own_redis_go.Server.Handler.{
  Handler, ok, nil_assertion, ◌>>=◌, ◌>>◌, pure, stop, fault, gets, modify, session_user, read_arg,
  read_checked, read_arg_logged, skip_line, say,
}
use make_your_own_redis_go.Commands.{require_auth}

-- The reply of ACL GETUSER.
unfoldable pub user_reply : User → Bytes
user_reply u =
    array_header 4
    ++ (bulk (codes "flags")
        ++ (array_header (length u.flags)
            ++ (bulks u.flags
                ++ (bulk (codes "passwords")
                    ++ (array_header (length u.passwords) ++ bulks u.passwords)))))

unfoldable pub get_user : Conn → Option User → Handler (Unit {0})
get_user conn none = stop
get_user conn (some u) = say conn (user_reply u)

-- The loop that takes the first flag "nopass" out.
unfoldable pub drop_nopass : List Bytes → List Bytes
drop_nopass [] = []
drop_nopass (f ∷ fs) = if beq f (codes "nopass") then fs else f ∷ drop_nopass fs

unfoldable pub with_password : Bytes → User → User
with_password hash u = record { passwords = u.passwords ++ hash ∷ []; flags = drop_nopass u.flags }

unfoldable pub add_password : Bytes → Bytes → Option User → Handler (Unit {0})
add_password name hash none = stop
add_password name hash (some u) =
    modify (λ s. record s { users = store name (with_password hash u) s.users })

-- The case "SETUSER": only a rule `>password` changes the user.
unfoldable pub set_user : Library → Conn → Handler (Unit {0})
set_user lib conn = do
  name ← read_arg
  skip_line
  arg ← read_checked
  user ← gets (λ s. load name s.users)
  if has_prefix b'>' arg
      then add_password name (lib.sha256_hex (trim_space (trim_prefix b'>' arg))) user
      else pure tt
  say conn (line (codes "+OK"))

-- HandleACL
unfoldable pub handle_acl : Library → Conn → Handler (Unit {0})
handle_acl lib conn = do
  require_auth conn
  arg ← read_arg
  let cmd = to_upper arg
  if beq cmd (codes "WHOAMI")
      then (do user ← session_user; say conn (bulk user))
      else if beq cmd (codes "GETUSER")
      then (do name ← read_arg_logged; user ← gets (λ s. load name s.users); get_user conn user)
      else if beq cmd (codes "SETUSER")
      then set_user lib conn
      else pure tt

unfoldable pub has_password : Bytes → List Bytes → Bool
has_password hash [] = false
has_password hash (p ∷ ps) = beq p hash || has_password hash ps

unfoldable pub become : Bytes → Handler (Unit {0})
become name w = (ok tt, record w { auth_user = name })

-- The end of HandleAuth. For an unknown user the assertion `.(*User)` on nil panics.
unfoldable pub check_password : Conn → Bytes → Bytes → Option User → Handler (Unit {0})
check_password conn name hash none = fault nil_assertion
check_password conn name hash (some u) =
    if has_password hash u.passwords
    then (do become name; say conn (line (codes "+OK")))
    else say conn (line (codes "-WRONGPASS invalid username-password pair or user is disabled."))

-- HandleAuth
unfoldable pub handle_auth : Library → Conn → Handler (Unit {0})
handle_auth lib conn = do
  name ← read_arg
  password ← read_arg
  user ← gets (λ s. load name s.users)
  check_password conn name (lib.sha256_hex password) user
