-- ===== src/Serve/Keyspace.antt =====
-- The handlers of the string, configuration, user, list and replication commands come to an outcome.
use make_your_own_redis_go.Shared.{ℕ, List, [], ◌∷◌, Option, none, some, Bytes, arith}
use make_your_own_redis_go.Shared.Int.{ℤ, pos, negsuc}
use make_your_own_redis_go.Float.{Float64}
use make_your_own_redis_go.Reader.{ReadError}
use make_your_own_redis_go.Server.{Server, Conn, User, LockableList, Library}
use make_your_own_redis_go.Server.Settles.{Settles}
use make_your_own_redis_go.Commands.Settles.{command_rules}
use make_your_own_redis_go.Commands.Strings.{
  handle_ping, handle_echo, expire_after, set_option, after_set, handle_set, handle_get,
}
use make_your_own_redis_go.Commands.Config.{
  config_reply, handle_config_get, handle_keys, info_replication, handle_info,
}
use make_your_own_redis_go.Commands.Acl.{
  get_user, add_password, set_user, handle_acl, become, check_password, handle_auth,
}
use make_your_own_redis_go.Commands.Lists.{
  handle_rpush, handle_lpush, lrange, send_range, lrange_reply, handle_lrange, handle_llen,
  pop_front, send_popped, pop_count, lpop, pop_arg, handle_lpop,
}
use make_your_own_redis_go.Commands.Blocking.{blpop_success, set_list, take_or_wait, handle_blpop}
use make_your_own_redis_go.Commands.Replication.{
  get_ack, master_conf, handle_replconf, add_replica, full_resync, handle_psync_master, wait_round,
  wait_for, handle_wait,
}

pub Settles-handle_ping : (conn : Conn) → Settles (handle_ping conn)
unfolding handle_ping
Settles-handle_ping conn = search command_rules

pub Settles-handle_echo : (conn : Conn) → Settles (handle_echo conn)
unfolding handle_echo
Settles-handle_echo conn = search command_rules

Settles-expire_after : (key tte : Bytes) (e : Option ReadError) → Settles (expire_after key tte e)
unfolding expire_after
Settles-expire_after key tte none = search command_rules
Settles-expire_after key tte (some e) = search command_rules

Settles-set_option : (key : Bytes) → Settles (set_option key)
unfolding set_option
Settles-set_option key = search (command_rules, Settles-expire_after) depth 9

Settles-after_set : (key value : Bytes) → Settles (after_set key value)
unfolding after_set
Settles-after_set key value = search command_rules depth 9

pub Settles-handle_set : (conn : Conn) → Settles (handle_set conn)
unfolding handle_set
Settles-handle_set conn = search (command_rules, Settles-set_option, Settles-after_set) depth 12

pub Settles-handle_get : (conn : Conn) → Settles (handle_get conn)
unfolding handle_get
Settles-handle_get conn = search command_rules depth 9

Settles-config_reply :
    (conn : Conn) (name : Bytes) (v : Option Bytes) → Settles (config_reply conn name v)
unfolding config_reply
Settles-config_reply conn name none = search command_rules
Settles-config_reply conn name (some value) = search command_rules

pub Settles-handle_config_get : (conn : Conn) → Settles (handle_config_get conn)
unfolding handle_config_get
Settles-handle_config_get conn = search (command_rules, Settles-config_reply) depth 9

pub Settles-handle_keys : (conn : Conn) → Settles (handle_keys conn)
unfolding handle_keys
Settles-handle_keys conn = search command_rules depth 9

Settles-info_replication : (conn : Conn) → Settles (info_replication conn)
unfolding info_replication
Settles-info_replication conn = search command_rules depth 9

pub Settles-handle_info : (conn : Conn) → Settles (handle_info conn)
unfolding handle_info
Settles-handle_info conn = search (command_rules, Settles-info_replication) depth 9

Settles-get_user : (conn : Conn) (u : Option User) → Settles (get_user conn u)
unfolding get_user
Settles-get_user conn none = search command_rules
Settles-get_user conn (some u) = search command_rules

Settles-add_password : (name hash : Bytes) (u : Option User) → Settles (add_password name hash u)
unfolding add_password
Settles-add_password name hash none = search command_rules
Settles-add_password name hash (some u) = search command_rules

Settles-set_user : (lib : Library) (conn : Conn) → Settles (set_user lib conn)
unfolding set_user
Settles-set_user lib conn = search (command_rules, Settles-add_password) depth 9

pub Settles-handle_acl : (lib : Library) (conn : Conn) → Settles (handle_acl lib conn)
unfolding handle_acl
Settles-handle_acl lib conn = search (command_rules, Settles-get_user, Settles-set_user) depth 12

Settles-become : (name : Bytes) → Settles (become name)
unfolding become
Settles-become name = record { at = λ w. ground arith }

Settles-check_password :
    (conn : Conn) (name hash : Bytes) (u : Option User) → Settles (check_password conn name hash u)
unfolding check_password
Settles-check_password conn name hash none = search command_rules
Settles-check_password conn name hash (some u) = search (command_rules, Settles-become)

pub Settles-handle_auth : (lib : Library) (conn : Conn) → Settles (handle_auth lib conn)
unfolding handle_auth
Settles-handle_auth lib conn = search (command_rules, Settles-check_password) depth 9

pub Settles-handle_rpush : (conn : Conn) → Settles (handle_rpush conn)
unfolding handle_rpush
Settles-handle_rpush conn = search command_rules depth 9

pub Settles-handle_lpush : (conn : Conn) → Settles (handle_lpush conn)
unfolding handle_lpush
Settles-handle_lpush conn = search command_rules depth 9

Settles-send_range : (conn : Conn) (r : Option Bytes) → Settles (send_range conn r)
unfolding send_range
Settles-send_range conn none = search command_rules
Settles-send_range conn (some reply) = search command_rules

Settles-lrange_reply :
    (conn : Conn) (i j : ℤ) (l : Option LockableList) → Settles (lrange_reply conn i j l)
unfolding lrange_reply
Settles-lrange_reply conn i j none = search command_rules
Settles-lrange_reply conn i j (some l) = Settles-send_range conn (lrange l.elements i j)

pub Settles-handle_lrange : (conn : Conn) → Settles (handle_lrange conn)
unfolding handle_lrange
Settles-handle_lrange conn = search (command_rules, Settles-lrange_reply) depth 9

pub Settles-handle_llen : (conn : Conn) → Settles (handle_llen conn)
unfolding handle_llen
Settles-handle_llen conn = search command_rules depth 9

Settles-send_popped :
    (conn : Conn) (key : Bytes) (l : LockableList) (n : ℕ) (r : Option (List Bytes × List Bytes))
    → Settles (send_popped conn key l n r)
unfolding send_popped
Settles-send_popped conn key l n none = search command_rules
Settles-send_popped conn key l n (some (popped, rest)) = search command_rules

Settles-pop_count :
    (conn : Conn) (key : Bytes) (l : LockableList) (n : ℤ) → Settles (pop_count conn key l n)
unfolding pop_count
Settles-pop_count conn key l (negsuc n) = search command_rules
Settles-pop_count conn key l (pos n) = Settles-send_popped conn key l n (pop_front n l.elements)

Settles-lpop :
    (conn : Conn) (key : Bytes) (l : Option LockableList) (n : ℤ) → Settles (lpop conn key l n)
unfolding lpop
Settles-lpop conn key none n = search command_rules
Settles-lpop conn key (some l) n = Settles-pop_count conn key l n

Settles-pop_arg : Settles pop_arg
unfolding pop_arg
Settles-pop_arg = search command_rules depth 9

pub Settles-handle_lpop : (conn : Conn) → Settles (handle_lpop conn)
unfolding handle_lpop
Settles-handle_lpop conn = search (command_rules, Settles-lpop, Settles-pop_arg) depth 9

Settles-take_or_wait :
    (conn : Conn) (key : Bytes) (t : Float64) (l : LockableList) (es : List Bytes)
    → Settles (take_or_wait conn key t l es)
unfolding take_or_wait set_list blpop_success
Settles-take_or_wait conn key t l [] = search command_rules
Settles-take_or_wait conn key t l (e ∷ es) = search command_rules

pub Settles-handle_blpop : (lib : Library) (conn : Conn) → Settles (handle_blpop lib conn)
unfolding handle_blpop
Settles-handle_blpop lib conn = search (command_rules, Settles-take_or_wait) depth 9

Settles-get_ack : (conn : Conn) → Settles (get_ack conn)
unfolding get_ack
Settles-get_ack conn = search command_rules depth 9

Settles-master_conf : (conn : Conn) (cmd val : Bytes) → Settles (master_conf conn cmd val)
unfolding master_conf
Settles-master_conf conn cmd val = search command_rules depth 9

pub Settles-handle_replconf : (conn : Conn) → Settles (handle_replconf conn)
unfolding handle_replconf
Settles-handle_replconf conn = search (command_rules, Settles-get_ack, Settles-master_conf) depth 9

Settles-add_replica : (conn : Conn) → Settles (add_replica conn)
unfolding add_replica
Settles-add_replica conn = search command_rules

Settles-full_resync : (conn : Conn) → Settles (full_resync conn)
unfolding full_resync
Settles-full_resync conn = search (command_rules, Settles-add_replica) depth 14

pub Settles-handle_psync_master : (conn : Conn) → Settles (handle_psync_master conn)
unfolding handle_psync_master
Settles-handle_psync_master conn = search (command_rules, Settles-full_resync) depth 9

Settles-wait_round : (conn : Conn) (wanted timeout : ℤ) → Settles (wait_round conn wanted timeout)
unfolding wait_round
Settles-wait_round conn wanted timeout = search command_rules depth 9

Settles-wait_for :
    (conn : Conn) (wanted timeout : ℤ) (s : Server) → Settles (wait_for conn wanted timeout s)
unfolding wait_for
Settles-wait_for conn wanted timeout s = search (command_rules, Settles-wait_round) depth 9

pub Settles-handle_wait : (conn : Conn) → Settles (handle_wait conn)
unfolding handle_wait
Settles-handle_wait conn = search (command_rules, Settles-wait_for) depth 9
