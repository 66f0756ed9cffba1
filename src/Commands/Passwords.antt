-- ===== src/Commands/Passwords.antt =====
-- AUTH and ACL SETUSER: who a session becomes.
use mathlib.Core.HLevel.{⊥_prop}
use mathlib.Core.Logic.Or
use mathlib.Core.List.{Mem, not-mem-nil, mem-cons, mem-cons_self, mem-cons_of_mem}
use make_your_own_redis_go.Shared.{
  ◌⊎◌, inl, inr, ap, sym, subst, beq, beq_iff, Bool-cases, codes, ◌≡◌, refl, ◌∙◌, true, false, List,
  [], ◌∷◌, ◌++◌, some, Bytes, arith, beq_refl, has_prefix, trim_prefix,
}
use make_your_own_redis_go.Shared.Dict.{load, store, load-store}
use make_your_own_redis_go.Text.Trim.{trim_space-line}
use make_your_own_redis_go.Resp.{bulk, line}
use make_your_own_redis_go.Server.{Conn, User, Library}
use make_your_own_redis_go.Server.Handler.{World, Outcome, ok}
use make_your_own_redis_go.Server.Arguments.{
  IsArgument, feed, read_arg-bulk, skip_line-bulk, read_checked-text,
}
use make_your_own_redis_go.Server.Output.{arrives, with_output, say-with_output}
use make_your_own_redis_go.Commands.Acl.{
  with_password, add_password, set_user, has_password, become, check_password, handle_auth,
}

-- A hash that is found is one of the list, and one that is not found is none of it.
has_password-Mem : (hash : Bytes) (ps : List Bytes) → has_password hash ps ≡ true → Mem hash ps
unfolding has_password
has_password-Mem hash [] h = cc
has_password-Mem hash (p ∷ ps) h = elim (Bool-cases (beq p hash)) [
  | inl e ↦ subst (λ x. Mem hash (x ∷ ps)) (sym ((beq_iff p hash).0 e)) mem-cons_self
  | inr e ↦ mem-cons_of_mem p (has_password-Mem hash ps (ground arith))
]

lacks_password-Mem :
    (hash : Bytes) (ps : List Bytes) → has_password hash ps ≡ false → ¬ (Mem hash ps)
unfolding has_password
lacks_password-Mem hash [] h m = not-mem-nil m
lacks_password-Mem hash (p ∷ ps) h m =
    Or.elim ⊥_prop (mem-cons.0 m) (λ e. ground (arith, (beq_iff p hash).1 (sym e)))
      (λ n. lacks_password-Mem hash ps (ground arith) n)

-- What AUTH leaves behind when it accepts the password, and when it refuses it.
abbrev pub accepted : Conn → Bytes → World → Outcome (Unit {0}) × World
accepted conn name w =
    (ok tt, record (with_output (arrives conn w.server (codes "+OK\r\n")) w) { auth_user = name })

abbrev pub refused : Conn → World → Outcome (Unit {0}) × World
refused conn w =
    let reply = codes "-WRONGPASS invalid username-password pair or user is disabled.\r\n" in
    (ok tt, with_output (arrives conn w.server reply) w)

check_password-accepts :
    (conn : Conn) (name hash : Bytes) (u : User) (w : World)
    → has_password hash u.passwords ≡ true
    → check_password conn name hash (some u) w ≡ accepted conn name w
unfolding check_password become line
check_password-accepts conn name hash u w h = rw (h, say-with_output) refl

check_password-refuses :
    (conn : Conn) (name hash : Bytes) (u : User) (w : World)
    → has_password hash u.passwords ≡ false
    → check_password conn name hash (some u) w ≡ refused conn w
unfolding check_password line
check_password-refuses conn name hash u w h = rw (h, say-with_output) refl

module _ (lib : Library) (conn : Conn) (w : World) (name password rest : Bytes) where
  handle_auth-check_password :
      (u : User)
      → IsArgument name
      → IsArgument password
      → load name w.server.users ≡ some u
      → handle_auth lib conn (feed (bulk name ++ (bulk password ++ rest)) w)
        ≡ check_password conn name (lib.sha256_hex password) (some u) (feed rest w)
  unfolding handle_auth
  handle_auth-check_password u n p there =
      rw (read_arg-bulk name _ w n, read_arg-bulk password rest w p, there) refl

  -- AUTH with the name of a user: either the hash of the password is one of the user's passwords, the
  -- client reads +OK and the session has that user from then on, or it is none of them, the client reads
  -- the error WRONGPASS and the session keeps the user that it had. Nothing else changes.
  pub user-handle_auth :
      (u : User)
      → IsArgument name
      → IsArgument password
      → load name w.server.users ≡ some u
      → (Mem (lib.sha256_hex password) u.passwords
          × (handle_auth lib conn (feed (bulk name ++ (bulk password ++ rest)) w)
              ≡ accepted conn name (feed rest w)))
        ⊎ ((¬ (Mem (lib.sha256_hex password) u.passwords))
            × (handle_auth lib conn (feed (bulk name ++ (bulk password ++ rest)) w)
                ≡ refused conn (feed rest w)))
  user-handle_auth u n p there =
      let hash = lib.sha256_hex password in
      let checked = handle_auth-check_password u n p there in
      elim (Bool-cases (has_password hash u.passwords)) [
        | inl e ↦ inl (
          has_password-Mem hash u.passwords e,
          checked ∙ check_password-accepts conn name hash u (feed rest w) e,
        )
        | inr e ↦ inr (
          lacks_password-Mem hash u.passwords e,
          checked ∙ check_password-refuses conn name hash u (feed rest w) e,
        )
      ]

has_password-append : (hash : Bytes) (ps : List Bytes) → has_password hash (ps ++ hash ∷ []) ≡ true
unfolding has_password
has_password-append hash [] = rw (beq_refl hash)
has_password-append hash (p ∷ ps) = ground (arith, has_password-append hash ps)

-- What a client sends behind ACL SETUSER to give `name` the password.
abbrev pub password_rule : Bytes → Bytes → Bytes → Bytes
password_rule name password rest = bulk name ++ (bulk (b'>' ∷ password) ++ rest)

module _ (lib : Library) (conn : Conn) (w : World) (name password rest : Bytes) (u : User)
    (n : IsArgument name) (p : IsArgument password)
    (there : load name w.server.users ≡ some u) where
  users-set_user :
      (set_user lib conn (feed (password_rule name password rest) w)).1.server.users
      ≡ store name (with_password (lib.sha256_hex password) u) w.server.users
  unfolding set_user add_password has_prefix trim_prefix
  users-set_user = rw (
    read_arg-bulk name _ w n,
    skip_line-bulk,
    read_checked-text (b'>' ∷ password) rest w (omega arith, p.one_line),
    there,
    trim_space-line password p.trimmed,
    say-with_output,
  )

  -- ACL SETUSER with a rule `>password` for a user that exists: afterwards AUTH with that name and that
  -- password makes it the user of any session on the server.
  pub user-set_user-handle_auth :
      (other : Conn) (v : World) (more : Bytes)
      → v.server.users
        ≡ (set_user lib conn (feed (password_rule name password rest) w)).1.server.users
      → (handle_auth lib other (feed (bulk name ++ (bulk password ++ more)) v)).1.auth_user ≡ name
  unfolding with_password
  user-set_user-handle_auth other v more same =
      let hash = lib.sha256_hex password in
      let there : load name v.server.users ≡ some (with_password hash u) =
        rw (same, users-set_user, load-store, beq_refl name) refl in
      ap (λ r. r.1.auth_user)
        (handle_auth-check_password lib other v name password more (with_password hash u) n p there
          ∙ check_password-accepts other name hash (with_password hash u) (feed more v)
              (has_password-append hash u.passwords))
