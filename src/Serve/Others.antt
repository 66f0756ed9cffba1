-- ===== src/Serve/Others.antt =====
-- The handlers of the string, configuration, user and replication commands change the keyspace, the
-- users and the replicas only, beside what every handler may change.
use make_your_own_redis_go.Shared.{List, Option, none, some, Bytes}
use make_your_own_redis_go.Shared.Int.{ℤ}
use make_your_own_redis_go.Shared.Dict.{Dict}
use make_your_own_redis_go.Reader.{ReadError}
use make_your_own_redis_go.Server.{Server, Conn, User, Replica, Library}
use make_your_own_redis_go.Server.Handler.{World, modify}
use make_your_own_redis_go.Server.Keeps.{Keeps}
use make_your_own_redis_go.Commands.Frame.{IsQuiet, quiet_rules}
use make_your_own_redis_go.Commands.Strings.{
  handle_ping, handle_echo, expire_after, set_option, after_set, handle_set, handle_get,
}
use make_your_own_redis_go.Commands.Config.{
  config_reply, handle_config_get, handle_keys, info_replication, handle_info,
}
use make_your_own_redis_go.Commands.Acl.{
  get_user, add_password, set_user, handle_acl, become, check_password, handle_auth,
}
use make_your_own_redis_go.Commands.Replication.{
  get_ack, master_conf, handle_replconf, add_replica, full_resync, handle_psync_master, wait_round,
  wait_for, handle_wait,
}

-- A property that does not look at the keyspace, the users, the replicas and who the session is.
pub record IsBlind (P : World → Type 0) : Type 0 where
  pub memories :
      (w : World) (m : Dict Bytes)
      → P w
      → P (record w { server = record (w.server) { memory = m } })
  pub accounts :
      (w : World) (u : Dict User) → P w → P (record w { server = record (w.server) { users = u } })
  pub sessions : (w : World) (u : Bytes) → P w → P (record w { auth_user = u })
  pub copies :
      (w : World) (r : List Replica)
      → P w
      → P (record w { server = record (w.server) { replicas = r } })

module _ (P : World → Type 0) (quiet : IsQuiet P) (blind : IsBlind P) where
  Keeps-memory : (f : Server → Dict Bytes) → Keeps P (modify (λ s. record s { memory = f s }))
  Keeps-memory f = record { at = λ w h. blind.memories w (f w.server) h }

  Keeps-users : (f : Server → Dict User) → Keeps P (modify (λ s. record s { users = f s }))
  Keeps-users f = record { at = λ w h. blind.accounts w (f w.server) h }

  Keeps-replicas : (f : Server → List Replica) → Keeps P (modify (λ s. record s { replicas = f s }))
  Keeps-replicas f = record { at = λ w h. blind.copies w (f w.server) h }

  ruleset elsewhere_rules = (quiet_rules, Keeps-memory, Keeps-users, Keeps-replicas)

  pub Keeps-handle_ping : (conn : Conn) → Keeps P (handle_ping conn)
  unfolding handle_ping
  Keeps-handle_ping conn = search elsewhere_rules

  pub Keeps-handle_echo : (conn : Conn) → Keeps P (handle_echo conn)
  unfolding handle_echo
  Keeps-handle_echo conn = search elsewhere_rules

  Keeps-expire_after : (key tte : Bytes) (e : Option ReadError) → Keeps P (expire_after key tte e)
  unfolding expire_after
  Keeps-expire_after key tte none = search elsewhere_rules
  Keeps-expire_after key tte (some e) = search elsewhere_rules

  Keeps-set_option : (key : Bytes) → Keeps P (set_option key)
  unfolding set_option
  Keeps-set_option key = search (elsewhere_rules, Keeps-expire_after) depth 9

  Keeps-after_set : (key value : Bytes) → Keeps P (after_set key value)
  unfolding after_set
  Keeps-after_set key value = search elsewhere_rules depth 9

  pub Keeps-handle_set : (conn : Conn) → Keeps P (handle_set conn)
  unfolding handle_set
  Keeps-handle_set conn = search (elsewhere_rules, Keeps-set_option, Keeps-after_set) depth 12

  pub Keeps-handle_get : (conn : Conn) → Keeps P (handle_get conn)
  unfolding handle_get
  Keeps-handle_get conn = search elsewhere_rules depth 9

  Keeps-config_reply :
      (conn : Conn) (name : Bytes) (v : Option Bytes) → Keeps P (config_reply conn name v)
  unfolding config_reply
  Keeps-config_reply conn name none = search elsewhere_rules
  Keeps-config_reply conn name (some value) = search elsewhere_rules

  pub Keeps-handle_config_get : (conn : Conn) → Keeps P (handle_config_get conn)
  unfolding handle_config_get
  Keeps-handle_config_get conn = search (elsewhere_rules, Keeps-config_reply) depth 9

  pub Keeps-handle_keys : (conn : Conn) → Keeps P (handle_keys conn)
  unfolding handle_keys
  Keeps-handle_keys conn = search elsewhere_rules depth 9

  Keeps-info_replication : (conn : Conn) → Keeps P (info_replication conn)
  unfolding info_replication
  Keeps-info_replication conn = search elsewhere_rules depth 9

  pub Keeps-handle_info : (conn : Conn) → Keeps P (handle_info conn)
  unfolding handle_info
  Keeps-handle_info conn = search (elsewhere_rules, Keeps-info_replication) depth 9

  Keeps-get_user : (conn : Conn) (u : Option User) → Keeps P (get_user conn u)
  unfolding get_user
  Keeps-get_user conn none = search elsewhere_rules
  Keeps-get_user conn (some u) = search elsewhere_rules

  Keeps-add_password : (name hash : Bytes) (u : Option User) → Keeps P (add_password name hash u)
  unfolding add_password
  Keeps-add_password name hash none = search elsewhere_rules
  Keeps-add_password name hash (some u) = search elsewhere_rules

  Keeps-set_user : (lib : Library) (conn : Conn) → Keeps P (set_user lib conn)
  unfolding set_user
  Keeps-set_user lib conn = search (elsewhere_rules, Keeps-add_password) depth 9

  pub Keeps-handle_acl : (lib : Library) (conn : Conn) → Keeps P (handle_acl lib conn)
  unfolding handle_acl
  Keeps-handle_acl lib conn = search (elsewhere_rules, Keeps-get_user, Keeps-set_user) depth 12

  Keeps-become : (name : Bytes) → Keeps P (become name)
  unfolding become
  Keeps-become name = record { at = λ w h. blind.sessions w name h }

  Keeps-check_password :
      (conn : Conn) (name hash : Bytes) (u : Option User)
      → Keeps P (check_password conn name hash u)
  unfolding check_password
  Keeps-check_password conn name hash none = search elsewhere_rules
  Keeps-check_password conn name hash (some u) = search (elsewhere_rules, Keeps-become)

  pub Keeps-handle_auth : (lib : Library) (conn : Conn) → Keeps P (handle_auth lib conn)
  unfolding handle_auth
  Keeps-handle_auth lib conn = search (elsewhere_rules, Keeps-check_password) depth 9

  Keeps-get_ack : (conn : Conn) → Keeps P (get_ack conn)
  unfolding get_ack
  Keeps-get_ack conn = search elsewhere_rules depth 9

  Keeps-master_conf : (conn : Conn) (cmd val : Bytes) → Keeps P (master_conf conn cmd val)
  unfolding master_conf
  Keeps-master_conf conn cmd val = search elsewhere_rules depth 9

  pub Keeps-handle_replconf : (conn : Conn) → Keeps P (handle_replconf conn)
  unfolding handle_replconf
  Keeps-handle_replconf conn = search (elsewhere_rules, Keeps-get_ack, Keeps-master_conf) depth 9

  Keeps-add_replica : (conn : Conn) → Keeps P (add_replica conn)
  unfolding add_replica
  Keeps-add_replica conn = search elsewhere_rules

  Keeps-full_resync : (conn : Conn) → Keeps P (full_resync conn)
  unfolding full_resync
  Keeps-full_resync conn = search (elsewhere_rules, Keeps-add_replica) depth 14

  pub Keeps-handle_psync_master : (conn : Conn) → Keeps P (handle_psync_master conn)
  unfolding handle_psync_master
  Keeps-handle_psync_master conn = search (elsewhere_rules, Keeps-full_resync) depth 9

  pub Keeps-wait_round :
      (conn : Conn) (wanted timeout : ℤ) → Keeps P (wait_round conn wanted timeout)
  unfolding wait_round
  Keeps-wait_round conn wanted timeout = search elsewhere_rules depth 9

  Keeps-wait_for :
      (conn : Conn) (wanted timeout : ℤ) (s : Server) → Keeps P (wait_for conn wanted timeout s)
  unfolding wait_for
  Keeps-wait_for conn wanted timeout s = search (elsewhere_rules, Keeps-wait_round) depth 9

  pub Keeps-handle_wait : (conn : Conn) → Keeps P (handle_wait conn)
  unfolding handle_wait
  Keeps-handle_wait conn = search (elsewhere_rules, Keeps-wait_for) depth 9
