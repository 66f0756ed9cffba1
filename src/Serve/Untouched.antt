-- ===== src/Serve/Untouched.antt =====
-- The handlers of the list commands leave the sorted sets alone.
use make_your_own_redis_go.Shared.{
  ◌≡◌, refl, subst, sym, ℕ, List, [], ◌∷◌, Option, none, some, Bytes,
}
use make_your_own_redis_go.Shared.Int.{ℤ, pos, negsuc}
use make_your_own_redis_go.Shared.Dict.{Dict}
use make_your_own_redis_go.Float.{Float64}
use make_your_own_redis_go.Server.{Server, Conn, LockableList, SortedSet, Library}
use make_your_own_redis_go.Server.Handler.{World, modify}
use make_your_own_redis_go.Server.Keeps.{Keeps}
use make_your_own_redis_go.Commands.Frame.{IsQuiet, quiet_rules}
use make_your_own_redis_go.Serve.Others.{IsBlind}
use make_your_own_redis_go.Commands.Lists.{
  push_right, push_left, handle_rpush, handle_lpush, lrange, send_range, lrange_reply,
  handle_lrange, handle_llen, pop_front, send_popped, pop_count, lpop, pop_arg, handle_lpop,
}
use make_your_own_redis_go.Commands.Blocking.{
  blpop_success, set_list, enqueue_client, take_or_wait, handle_blpop, finish_receive,
  blpop_receive, blpop_timeout,
}

module _ (P : Dict SortedSet → Type 0) where
  -- A property of the sorted sets of the server.
  abbrev pub Q : World → Type 0
  Q w = P w.server.zsets

  pub Q-IsQuiet : IsQuiet Q
  Q-IsQuiet = record {
    reads = λ w r h. h;
    outputs = λ w o h. h;
    infos = λ w i h. h;
    offsets = λ w n h. h;
    files = λ w f h. h;
    clocks = λ w t h. h;
  }

  pub Keeps-elsewhere :
      (f : Server → Server) → ((s : Server) → (f s).zsets ≡ s.zsets) → Keeps Q (modify f)
  Keeps-elsewhere f same = record { at = λ w h. subst P (sym (same w.server)) h }

  ruleset elsewhere_rules = (quiet_rules, Q-IsQuiet, Keeps-elsewhere, refl)

  pub Q-IsBlind : IsBlind Q
  Q-IsBlind = record {
    memories = λ w m h. h;
    accounts = λ w u h. h;
    sessions = λ w u h. h;
    copies = λ w r h. h;
  }

  pub Keeps-handle_rpush : (conn : Conn) → Keeps Q (handle_rpush conn)
  unfolding handle_rpush push_right
  Keeps-handle_rpush conn = search elsewhere_rules depth 9

  pub Keeps-handle_lpush : (conn : Conn) → Keeps Q (handle_lpush conn)
  unfolding handle_lpush push_left
  Keeps-handle_lpush conn = search elsewhere_rules depth 9

  Keeps-send_range : (conn : Conn) (r : Option Bytes) → Keeps Q (send_range conn r)
  unfolding send_range
  Keeps-send_range conn none = search elsewhere_rules
  Keeps-send_range conn (some reply) = search elsewhere_rules

  Keeps-lrange_reply :
      (conn : Conn) (i j : ℤ) (l : Option LockableList) → Keeps Q (lrange_reply conn i j l)
  unfolding lrange_reply
  Keeps-lrange_reply conn i j none = search elsewhere_rules
  Keeps-lrange_reply conn i j (some l) = Keeps-send_range conn (lrange l.elements i j)

  pub Keeps-handle_lrange : (conn : Conn) → Keeps Q (handle_lrange conn)
  unfolding handle_lrange
  Keeps-handle_lrange conn = search (elsewhere_rules, Keeps-lrange_reply) depth 9

  pub Keeps-handle_llen : (conn : Conn) → Keeps Q (handle_llen conn)
  unfolding handle_llen
  Keeps-handle_llen conn = search elsewhere_rules depth 9

  Keeps-send_popped :
      (conn : Conn) (key : Bytes) (l : LockableList) (n : ℕ) (r : Option (List Bytes × List Bytes))
      → Keeps Q (send_popped conn key l n r)
  unfolding send_popped
  Keeps-send_popped conn key l n none = search elsewhere_rules
  Keeps-send_popped conn key l n (some (popped, rest)) = search elsewhere_rules

  Keeps-pop_count :
      (conn : Conn) (key : Bytes) (l : LockableList) (n : ℤ) → Keeps Q (pop_count conn key l n)
  unfolding pop_count
  Keeps-pop_count conn key l (negsuc n) = search elsewhere_rules
  Keeps-pop_count conn key l (pos n) = Keeps-send_popped conn key l n (pop_front n l.elements)

  Keeps-lpop :
      (conn : Conn) (key : Bytes) (l : Option LockableList) (n : ℤ) → Keeps Q (lpop conn key l n)
  unfolding lpop
  Keeps-lpop conn key none n = search elsewhere_rules
  Keeps-lpop conn key (some l) n = Keeps-pop_count conn key l n

  Keeps-pop_arg : Keeps Q pop_arg
  unfolding pop_arg
  Keeps-pop_arg = search elsewhere_rules depth 9

  pub Keeps-handle_lpop : (conn : Conn) → Keeps Q (handle_lpop conn)
  unfolding handle_lpop
  Keeps-handle_lpop conn = search (elsewhere_rules, Keeps-lpop, Keeps-pop_arg) depth 9

  Keeps-take_or_wait :
      (conn : Conn) (key : Bytes) (t : Float64) (l : LockableList) (es : List Bytes)
      → Keeps Q (take_or_wait conn key t l es)
  unfolding take_or_wait set_list blpop_success enqueue_client
  Keeps-take_or_wait conn key t l [] = search elsewhere_rules
  Keeps-take_or_wait conn key t l (e ∷ es) = search elsewhere_rules

  pub Keeps-handle_blpop : (lib : Library) (conn : Conn) → Keeps Q (handle_blpop lib conn)
  unfolding handle_blpop
  Keeps-handle_blpop lib conn = search (elsewhere_rules, Keeps-take_or_wait) depth 9

  Keeps-finish_receive :
      (conn : Conn) (key : Bytes) (ch : ℕ) (t : Float64) (o : Option Bytes)
      → Keeps Q (finish_receive conn key ch t o)
  unfolding finish_receive blpop_success
  Keeps-finish_receive conn key ch t none = search elsewhere_rules
  Keeps-finish_receive conn key ch t (some e) = search elsewhere_rules

  pub Keeps-blpop_receive :
      (conn : Conn) (key : Bytes) (ch : ℕ) (t : Float64) → Keeps Q (blpop_receive conn key ch t)
  unfolding blpop_receive
  Keeps-blpop_receive conn key ch t = search (elsewhere_rules, Keeps-finish_receive)

  pub Keeps-blpop_timeout :
      (conn : Conn) (key : Bytes) (ch : ℕ) (t : Float64) → Keeps Q (blpop_timeout conn key ch t)
  unfolding blpop_timeout set_list
  Keeps-blpop_timeout conn key ch t = search elsewhere_rules depth 9
