-- ===== src/Serve/Waiting.antt =====
-- Every handler keeps the channels of the clients in BLPOP in order.
use make_your_own_redis_go.Shared.{
  ℕ, ◌≡◌, refl, List, [], ◌∷◌, Option, none, some, Bytes, arith, Bool-cases, inl, inr, codes, ◌++◌,
}
use make_your_own_redis_go.Shared.Int.{ℤ, pos, negsuc}
use make_your_own_redis_go.Shared.Dict.{load, load_or, or_else, store}
use make_your_own_redis_go.Float.{Float64, float_eq, float_zero}
use make_your_own_redis_go.Resp.{null_bulk, array_header, bulk}
use make_your_own_redis_go.Server.{Server, Conn, LockableList, Library}
use make_your_own_redis_go.Server.Handler.{World, ◌>>=◌, gets, modify, say}
use make_your_own_redis_go.Server.Keeps.{Keeps}
use make_your_own_redis_go.Commands.Frame.{IsQuiet, quiet_rules, Keeps-say}
use make_your_own_redis_go.Commands.Lists.{
  new_list, push_right, push_left, handle_rpush, handle_lpush, lrange, send_range, lrange_reply,
  handle_lrange, handle_llen, pop_front, popped_reply, send_popped, pop_count, lpop, pop_arg,
  handle_lpop,
}
use make_your_own_redis_go.Commands.Blocking.{
  blpop_success, set_list, take_or_wait, handle_blpop, finish_receive, blpop_receive, blpop_timeout,
  received, drained, remove_client,
}
use make_your_own_redis_go.Serve.Others.{IsBlind}
use make_your_own_redis_go.Serve.SetCommands.{IsSetless}
use make_your_own_redis_go.Serve.Channels.{
  AreOpen, push_right-AreOpen, store-AreOpen, enqueue_client-AreOpen, drained-AreOpen,
  remove_client-le,
}

abbrev pub InOrder : World → Type 0
InOrder w = AreOpen w.server

pub InOrder-IsQuiet : IsQuiet InOrder
InOrder-IsQuiet = record {
  reads = λ w r h. h;
  outputs = λ w o h. h;
  infos = λ w i h. h;
  offsets = λ w n h. h;
  files = λ w f h. h;
  clocks = λ w t h. h;
}

pub InOrder-IsBlind : IsBlind InOrder
InOrder-IsBlind = record {
  memories = λ w m h. h;
  accounts = λ w u h. h;
  sessions = λ w u h. h;
  copies = λ w r h. h;
}

pub InOrder-IsSetless : IsSetless InOrder
InOrder-IsSetless = record { sets = λ w z h. h }

ruleset rules = (quiet_rules, InOrder-IsQuiet)

Keeps-push_right : (key : Bytes) (es : List Bytes) → Keeps InOrder (modify (push_right key es))
Keeps-push_right key es = record { at = λ w h. push_right-AreOpen key es w.server h }

Keeps-push_left : (key : Bytes) (es : List Bytes) → Keeps InOrder (modify (push_left key es))
unfolding push_left
Keeps-push_left key es = record { at = λ w h. store-AreOpen key _ w.server (λ c. omega arith) h }

pub Keeps-handle_rpush : (conn : Conn) → Keeps InOrder (handle_rpush conn)
unfolding handle_rpush
Keeps-handle_rpush conn = search (rules, Keeps-push_right) depth 9

pub Keeps-handle_lpush : (conn : Conn) → Keeps InOrder (handle_lpush conn)
unfolding handle_lpush
Keeps-handle_lpush conn = search (rules, Keeps-push_left) depth 9

Keeps-send_range : (conn : Conn) (r : Option Bytes) → Keeps InOrder (send_range conn r)
unfolding send_range
Keeps-send_range conn none = search rules
Keeps-send_range conn (some reply) = search rules

Keeps-lrange_reply :
    (conn : Conn) (i j : ℤ) (l : Option LockableList) → Keeps InOrder (lrange_reply conn i j l)
unfolding lrange_reply
Keeps-lrange_reply conn i j none = search rules
Keeps-lrange_reply conn i j (some l) = Keeps-send_range conn (lrange l.elements i j)

pub Keeps-handle_lrange : (conn : Conn) → Keeps InOrder (handle_lrange conn)
unfolding handle_lrange
Keeps-handle_lrange conn = search (rules, Keeps-lrange_reply) depth 9

pub Keeps-handle_llen : (conn : Conn) → Keeps InOrder (handle_llen conn)
unfolding handle_llen
Keeps-handle_llen conn = search rules depth 9

-- What is popped is taken from the list that is there.
same_clients :
    (key : Bytes) (l : LockableList) (s : Server)
    → load key s.lists ≡ some l
    → (load_or key new_list s.lists).clients ≡ l.clients
unfolding load_or or_else
same_clients key l s h = rw h refl

stored_back :
    (key : Bytes) (l : LockableList) (es : List Bytes) (w : World)
    → (load_or key new_list w.server.lists).clients ≡ l.clients
    → InOrder w
    → AreOpen (record (w.server) { lists = store key (record l { elements = es }) w.server.lists })
stored_back key l es w same h =
    store-AreOpen key (record l { elements = es }) w.server (λ c. rw same (omega arith)) h

kept-send_popped :
    (conn : Conn) (key : Bytes) (l : LockableList) (n : ℕ) (r : Option (List Bytes × List Bytes))
    (w : World)
    → load key w.server.lists ≡ some l
    → InOrder w
    → InOrder (send_popped conn key l n r w).1
unfolding send_popped
kept-send_popped conn key l n none w e h = h
kept-send_popped conn key l n (some (popped, rest)) w e h =
    (Keeps-say InOrder InOrder-IsQuiet conn (popped_reply n popped)).at
      (record w {
        server = record (w.server) {
          lists = store key (record l { elements = rest }) w.server.lists;
        };
      })
      (stored_back key l rest w (same_clients key l w.server e) h)

kept-lpop :
    (conn : Conn) (key : Bytes) (o : Option LockableList) (n : ℤ) (w : World)
    → load key w.server.lists ≡ o
    → InOrder w
    → InOrder (lpop conn key o n w).1
unfolding lpop pop_count
kept-lpop conn key none n w e h = (Keeps-say InOrder InOrder-IsQuiet conn null_bulk).at w h
kept-lpop conn key (some l) (negsuc n) w e h = h
kept-lpop conn key (some l) (pos n) w e h =
    kept-send_popped conn key l n (pop_front n l.elements) w e h

Keeps-lpop :
    (conn : Conn) (key : Bytes) (n : ℤ)
    → Keeps InOrder (gets (λ s. load key s.lists) >>= λ l. lpop conn key l n)
Keeps-lpop conn key n = record {
  at = λ w h. kept-lpop conn key (load key w.server.lists) n w refl h;
}

Keeps-pop_arg : Keeps InOrder pop_arg
unfolding pop_arg
Keeps-pop_arg = search rules depth 9

pub Keeps-handle_lpop : (conn : Conn) → Keeps InOrder (handle_lpop conn)
unfolding handle_lpop
Keeps-handle_lpop conn = search (rules, Keeps-lpop, Keeps-pop_arg) depth 9

kept-take_or_wait :
    (conn : Conn) (key : Bytes) (t : Float64) (es : List Bytes) (w : World)
    → InOrder w
    → InOrder (take_or_wait conn key t (load_or key new_list w.server.lists) es w).1
unfolding take_or_wait set_list blpop_success
kept-take_or_wait conn key t [] w h = enqueue_client-AreOpen key w.server h
kept-take_or_wait conn key t (e ∷ es) w h =
    let l = load_or key new_list w.server.lists in
    (Keeps-say InOrder InOrder-IsQuiet conn (array_header 2 ++ (bulk key ++ bulk e))).at
      (record w {
        server = record (w.server) {
          lists = store key (record l { elements = es }) w.server.lists;
        };
      })
      (stored_back key l es w refl h)

Keeps-take_or_wait :
    (conn : Conn) (key : Bytes) (t : Float64)
    → Keeps InOrder
        (gets (λ s. load_or key new_list s.lists) >>= λ l. take_or_wait conn key t l l.elements)
Keeps-take_or_wait conn key t = record {
  at = λ w h. kept-take_or_wait conn key t (load_or key new_list w.server.lists).elements w h;
}

pub Keeps-handle_blpop : (lib : Library) (conn : Conn) → Keeps InOrder (handle_blpop lib conn)
unfolding handle_blpop
Keeps-handle_blpop lib conn = search (rules, Keeps-take_or_wait) depth 9

-- What wakes a client.
kept-finish_receive :
    (conn : Conn) (key : Bytes) (ch : ℕ) (t : Float64) (o : Option Bytes) (w : World)
    → InOrder w
    → InOrder (finish_receive conn key ch t o w).1
unfolding finish_receive blpop_success
kept-finish_receive conn key ch t none w h = h
kept-finish_receive conn key ch t (some e) w h =
    (Keeps-say InOrder InOrder-IsQuiet conn (array_header 2 ++ (bulk key ++ bulk e))).at
      (record w { server = record (w.server) { sent = drained ch w.server.sent } })
      (drained-AreOpen ch w.server h)

pub Keeps-blpop_receive :
    (conn : Conn) (key : Bytes) (ch : ℕ) (t : Float64) → Keeps InOrder (blpop_receive conn key ch t)
unfolding blpop_receive
Keeps-blpop_receive conn key ch t = record {
  at = λ w h. kept-finish_receive conn key ch t (received ch w.server.sent) w h;
}

kept-timeout :
    (conn : Conn) (key : Bytes) (ch : ℕ) (w : World)
    → InOrder w
    → let l = load_or key new_list w.server.lists in
      InOrder
        (say conn (codes "*-1\r\n") (record w {
          server = record (w.server) {
            lists = store key (record l { clients = remove_client ch l.clients }) w.server.lists;
          };
        })).1
kept-timeout conn key ch w h =
    let l = load_or key new_list w.server.lists in
    (Keeps-say InOrder InOrder-IsQuiet conn (codes "*-1\r\n")).at
      (record w {
        server = record (w.server) {
          lists = store key (record l { clients = remove_client ch l.clients }) w.server.lists;
        };
      })
      (store-AreOpen key (record l { clients = remove_client ch l.clients }) w.server
        (λ c. remove_client-le c ch l.clients) h)

pub Keeps-blpop_timeout :
    (conn : Conn) (key : Bytes) (ch : ℕ) (t : Float64) → Keeps InOrder (blpop_timeout conn key ch t)
unfolding blpop_timeout set_list
Keeps-blpop_timeout conn key ch t = record {
  at = λ w h. elim (Bool-cases (float_eq t float_zero)) [
    | inl never ↦ rw never h
    | inr fires ↦ rw fires (kept-timeout conn key ch w h)
  ];
}
