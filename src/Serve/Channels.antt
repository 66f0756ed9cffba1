-- ===== src/Serve/Channels.antt =====
-- The channels of the clients in BLPOP: how often each is in use, in the queues of the lists and in the
-- buffers.
use make_your_own_redis_go.Shared.{
  ℕ, ◌+◌, ◌≤◌, ◌<◌, ◌≡◌, refl, Bool-cases, inl, inr, List, [], ◌∷◌, ◌++◌, Bytes, arith, ◌==◌, beq,
  if◌then◌else◌,
}
use make_your_own_redis_go.Shared.Dict.{Dict, load, store, load_or, or_else}
use make_your_own_redis_go.Server.{Server, LockableList}
use make_your_own_redis_go.Commands.Lists.{new_list, deliver, push_right}
use make_your_own_redis_go.Commands.Blocking.{enqueue_client, drained, remove_client}

-- How often a channel stands in a queue, in the queues of all lists, and in the buffers.
unfoldable pub count : ℕ → List ℕ → ℕ
count c [] = 0
count c (x ∷ xs) = (if x == c then 1 else 0) + count c xs

unfoldable pub queued : ℕ → Dict LockableList → ℕ
queued c [] = 0
queued c ((k, l) ∷ d) = count c l.clients + queued c d

unfoldable pub buffered : ℕ → List (ℕ × Bytes) → ℕ
buffered c [] = 0
buffered c ((x, e) ∷ sent) = (if x == c then 1 else 0) + buffered c sent

pub uses : ℕ → Server → ℕ
uses c s = queued c s.lists + buffered c s.sent

count-append : (c : ℕ) (xs ys : List ℕ) → count c (xs ++ ys) ≡ count c xs + count c ys
unfolding count
count-append c [] ys = omega arith
count-append c (x ∷ xs) ys = omega (arith, count-append c xs ys)

buffered-append :
    (c : ℕ) (xs ys : List (ℕ × Bytes)) → buffered c (xs ++ ys) ≡ buffered c xs + buffered c ys
unfolding buffered
buffered-append c [] ys = omega arith
buffered-append c ((x, e) ∷ xs) ys = omega (arith, buffered-append c xs ys)

-- A list that is stored takes the place of the one that was there.
queued-store :
    (c : ℕ) (k : Bytes) (l : LockableList) (d : Dict LockableList)
    → queued c (store k l d) + count c (load_or k new_list d).clients
      ≡ queued c d + count c l.clients
unfolding queued store load_or load or_else count
queued-store c k l [] = omega arith
queued-store c k l ((j, x) ∷ d) = elim (Bool-cases (beq j k)) [
  | inl same ↦ rw same (omega arith)
  | inr other ↦ rw other (omega (arith, queued-store c k l d))
]

-- The loop of RPUSH moves clients from the queue to the buffers.
deliver-uses :
    (c : ℕ) (cs : List ℕ) (es : List Bytes) (sent : List (ℕ × Bytes))
    → count c (deliver cs es sent).clients + buffered c (deliver cs es sent).sent
      ≡ count c cs + buffered c sent
unfolding deliver count buffered
deliver-uses c [] es sent = omega arith
deliver-uses c (x ∷ cs) [] sent = omega arith
deliver-uses c (x ∷ cs) (e ∷ es) sent =
    omega (arith, deliver-uses c cs es (sent ++ (x, e) ∷ []), buffered-append c sent ((x, e) ∷ []))

pub push_right-uses :
    (c : ℕ) (key : Bytes) (es : List Bytes) (s : Server) → uses c (push_right key es s) ≡ uses c s
unfolding uses push_right
push_right-uses c key es s =
    let l = load_or key new_list s.lists in
    let d = deliver l.clients es s.sent in
    omega (
      arith,
      deliver-uses c l.clients es s.sent,
      queued-store c key (record { elements = l.elements ++ d.elements; clients = d.clients })
          s.lists,
    )

drained-le : (c ch : ℕ) (sent : List (ℕ × Bytes)) → buffered c (drained ch sent) ≤ buffered c sent
unfolding buffered drained
drained-le c ch [] = omega arith
drained-le c ch ((x, e) ∷ sent) = ground (arith, drained-le c ch sent)

pub remove_client-le : (c ch : ℕ) (cs : List ℕ) → count c (remove_client ch cs) ≤ count c cs
unfolding count remove_client
remove_client-le c ch [] = omega arith
remove_client-le c ch (x ∷ cs) = ground (arith, remove_client-le c ch cs)

-- Every channel is in use once at most, and one that is still to be made is not in use.
pub record IsOpen (lists : Dict LockableList) (sent : List (ℕ × Bytes)) (next : ℕ) : Type 0 where
  pub once : (c : ℕ) → queued c lists + buffered c sent ≤ 1
  pub unused : (c : ℕ) → next ≤ c → queued c lists + buffered c sent ≡ 0

abbrev pub AreOpen : Server → Type 0
AreOpen s = IsOpen s.lists s.sent s.next_channel

-- What uses no channel more often than before, and makes none.
fewer-AreOpen :
    (s t : Server)
    → ((c : ℕ) → uses c t ≤ uses c s)
    → t.next_channel ≡ s.next_channel
    → AreOpen s
    → AreOpen t
unfolding uses
fewer-AreOpen s t le same h = record {
  once = λ c. omega (arith, le c, h.once c);
  unused = λ c less. omega (arith, le c, h.unused c (omega arith));
}

pub push_right-AreOpen :
    (key : Bytes) (es : List Bytes) (s : Server) → AreOpen s → AreOpen (push_right key es s)
push_right-AreOpen key es s =
    fewer-AreOpen s (push_right key es s) (λ c. omega (arith, push_right-uses c key es s))
      (unfold push_right in refl)

-- A list with no more clients than there were in its place.
pub store-AreOpen :
    (key : Bytes) (l : LockableList) (s : Server)
    → ((c : ℕ) → count c l.clients ≤ count c (load_or key new_list s.lists).clients)
    → AreOpen s
    → AreOpen (record s { lists = store key l s.lists })
unfolding uses
store-AreOpen key l s le =
    fewer-AreOpen s (record s { lists = store key l s.lists })
      (λ c. omega (arith, le c, queued-store c key l s.lists)) refl

pub drained-AreOpen :
    (ch : ℕ) (s : Server) → AreOpen s → AreOpen (record s { sent = drained ch s.sent })
unfolding uses
drained-AreOpen ch s =
    fewer-AreOpen s (record s { sent = drained ch s.sent })
      (λ c. omega (arith, drained-le c ch s.sent)) refl

enqueue_client-uses :
    (c : ℕ) (key : Bytes) (s : Server)
    → queued c (enqueue_client key (load_or key new_list s.lists) s).lists
      ≡ queued c s.lists + (if s.next_channel == c then 1 else 0)
unfolding enqueue_client count
enqueue_client-uses c key s =
    let l = load_or key new_list s.lists in
    omega (
      arith,
      count-append c l.clients (s.next_channel ∷ []),
      queued-store c key (record l { clients = l.clients ++ s.next_channel ∷ [] }) s.lists,
    )

-- A client that comes to wait brings a new channel.
pub enqueue_client-AreOpen :
    (key : Bytes) (s : Server)
    → AreOpen s
    → AreOpen (enqueue_client key (load_or key new_list s.lists) s)
unfolding enqueue_client
enqueue_client-AreOpen key s h = record {
  once = λ c. ground (arith, enqueue_client-uses c key s, h.once c, h.unused c);
  unused = λ c less. ground (arith, enqueue_client-uses c key s, h.unused c);
}

-- A channel that stands in a queue has nothing in its buffer.
pub waiting-has_room :
    (s : Server) → AreOpen s → (c : ℕ) → 0 < queued c s.lists → buffered c s.sent ≡ 0
waiting-has_room s h c lt = omega (arith, h.once c)
