-- ===== src/Commands/Strings/Memory.antt =====
-- SET and GET against the map that they stand for.
use make_your_own_redis_go.Shared.{
  ◌≡◌, ◌≢◌, ◌∙◌, refl, ap, subst, inl, inr, ◌⊎◌, Option-cases, beq_refl, length, true, ◌++◌, Option,
  none, some, Bytes, codes, if◌then◌else◌, beq,
}
use make_your_own_redis_go.Shared.Dict.{Dict, load, store, load-store}
use make_your_own_redis_go.Reader.{ReadError}
use make_your_own_redis_go.Resp.{bulk, line}
use make_your_own_redis_go.Server.{Conn}
use make_your_own_redis_go.Server.Handler.{World, Handler, ok, ◌>>=◌, ◌>>◌, pure, say, has_buffered}
use make_your_own_redis_go.Server.Keeps.{Keeps}
use make_your_own_redis_go.Server.Arguments.{IsArgument, feed, read_arg-bulk}
use make_your_own_redis_go.Server.Output.{arrives, with_output, say-with_output}
use make_your_own_redis_go.Text.{itoa}
use make_your_own_redis_go.Commands.{check_auth, require_auth}
use make_your_own_redis_go.Commands.Frame.{IsQuiet, quiet_rules, Keeps-start_timer}
use make_your_own_redis_go.Commands.Strings.{
  expire_after, set_option, after_set, handle_set, get_reply, handle_get,
}

-- The keyspace of the server is `d`.
abbrev Memory : Dict Bytes → World → Type 0
Memory d w = w.server.memory ≡ d

Memory-IsQuiet : (d : Dict Bytes) → IsQuiet (Memory d)
Memory-IsQuiet d = record {
  reads = λ w r h. h;
  outputs = λ w o h. h;
  infos = λ w i h. h;
  offsets = λ w n h. h;
  files = λ w f h. h;
  clocks = λ w t h. h;
}

module _ (d : Dict Bytes) where
  Keeps-expire_after :
      (key tte : Bytes) (e : Option ReadError) → Keeps (Memory d) (expire_after key tte e)
  unfolding expire_after
  Keeps-expire_after key tte none = Keeps-start_timer (Memory d) (Memory-IsQuiet d) key _
  Keeps-expire_after key tte (some e) = search quiet_rules

  Keeps-set_option : (key : Bytes) → Keeps (Memory d) (set_option key)
  unfolding set_option
  Keeps-set_option key = search (quiet_rules, Memory-IsQuiet d, Keeps-expire_after) depth 9

  Keeps-after_set : (key value : Bytes) → Keeps (Memory d) (after_set key value)
  unfolding after_set
  Keeps-after_set key value = search (quiet_rules, Memory-IsQuiet d) depth 9

-- What HandleSet does behind the write to the keyspace.
abbrev set_tail : Conn → Bytes → Bytes → Handler (Unit {0})
set_tail conn key value = do
  after_set key value
  say conn (line (codes "+OK"))
  more ← has_buffered
  if more then set_option key else pure tt

Keeps-set_tail :
    (d : Dict Bytes) (conn : Conn) (key value : Bytes) → Keeps (Memory d) (set_tail conn key value)
Keeps-set_tail d conn key value =
    search (quiet_rules, Memory-IsQuiet d, Keeps-after_set, Keeps-set_option) depth 9

-- A value as a bulk string, spelled out.
abbrev pub framed : Bytes → Bytes
framed value = codes "$" ++ (itoa (length value) ++ (codes "\r\n" ++ (value ++ codes "\r\n")))

framed_lem : (value : Bytes) → bulk value ≡ framed value
unfolding bulk
framed_lem value = refl

-- GET with this key and more input behind it writes these bytes, and does nothing else.
abbrev pub Replies : Conn → World → Bytes → Bytes → Bytes → Type 0
Replies conn w key rest bytes =
    handle_get conn (feed (bulk key ++ rest) w)
    ≡ (ok tt, with_output (arrives conn w.server bytes) (feed rest w))

module _ (conn : Conn) (w : World) (authenticated : check_auth w.auth_user ≡ true) where
  require_auth_passes : (s : Bytes) → require_auth conn (feed s w) ≡ (ok tt, feed s w)
  unfolding require_auth
  require_auth_passes s = rw authenticated

  memory-handle_set :
      (key value rest : Bytes)
      → IsArgument key
      → IsArgument value
      → (handle_set conn (feed (bulk key ++ (bulk value ++ rest)) w)).1.server.memory
        ≡ store key value w.server.memory
  unfolding handle_set
  memory-handle_set key value rest k v =
      rw (require_auth_passes _, read_arg-bulk key _ w k, read_arg-bulk value rest w v)
        ((Keeps-set_tail (store key value w.server.memory) conn key value).at _ refl)

  -- SET of an authenticated client, whatever stands behind its value in the buffer and whatever the
  -- role of the server: afterwards the key has the value, and every other key has what it had.
  pub load-handle_set :
      (key value rest j : Bytes)
      → IsArgument key
      → IsArgument value
      → load j (handle_set conn (feed (bulk key ++ (bulk value ++ rest)) w)).1.server.memory
        ≡ (if beq key j then some value else load j w.server.memory)
  load-handle_set key value rest j k v =
      rw (memory-handle_set key value rest k v) (load-store key j value w.server.memory)

  -- GET of an authenticated client changes nothing but the output and its own input, and writes the
  -- null bulk string for a key that is not there, and otherwise the length of the value and the value,
  -- each with its line end.
  pub handle_get_reply :
      (key rest : Bytes)
      → IsArgument key
      → ((load key w.server.memory ≡ none) × Replies conn w key rest (codes "$-1\r\n"))
        ⊎ ((value : Bytes) × (load key w.server.memory ≡ some value)
            × Replies conn w key rest (framed value))
  unfolding handle_get get_reply
  handle_get_reply key rest k = elim (Option-cases (load key w.server.memory)) [
    | inl e ↦
        inl (e, rw (require_auth_passes _, read_arg-bulk key rest w k, e) (say-with_output _ _ _))
    | inr (value, e) ↦ inr (
      value,
      e,
      rw (require_auth_passes _, read_arg-bulk key rest w k, e, framed_lem value)
          (say-with_output _ _ _),
    )
  ]

none-some : {A : Type 0} {a : A} {o : Option A} → o ≡ some a → o ≢ none
none-some e f = cc

same_value : {A : Type 0} {a b : A} {o : Option A} → o ≡ some a → o ≡ some b → a ≡ b
same_value e f = cc

-- GET on any session of a client that is authenticated, while the keyspace is the one that a SET of the
-- key has left: it writes the length and the value of the SET, and does nothing else.
pub handle_get-handle_set :
    (conn other : Conn) (w v : World) (key value rest more : Bytes)
    → check_auth w.auth_user ≡ true
    → check_auth v.auth_user ≡ true
    → IsArgument key
    → IsArgument value
    → v.server.memory
      ≡ (handle_set conn (feed (bulk key ++ (bulk value ++ rest)) w)).1.server.memory
    → Replies other v key more (framed value)
handle_get-handle_set conn other w v key value rest more known known' k l same =
    let there : load key v.server.memory ≡ some value =
      ap (load key) same
      ∙ load-handle_set conn w known key value rest key k l
      ∙ rw (beq_refl key) refl in
    elim (handle_get_reply other v known' key more k) [
      | inl (absent, r) ↦ absurd (none-some there absent)
      | inr (found, e, r) ↦ subst (λ x. Replies other v key more (framed x)) (same_value e there) r
    ]
