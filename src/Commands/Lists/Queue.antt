-- ===== src/Commands/Lists/Queue.antt =====
-- RPUSH, LPUSH and the clients that wait in BLPOP.
use mathlib.Core.List.{zip, zip_with, reverse-cons}
use make_your_own_redis_go.Shared.{
  ℕ, ◌≡◌, ◌≢◌, ◌⊎◌, inl, inr, refl, ◌∙◌, List, [], ◌∷◌, ◌++◌, append_assoc, append-nil, Bytes,
  length, drop, reverse, beq_refl,
}
use make_your_own_redis_go.Shared.Dict.{
  Every, Every-store, Every-load_or, Dict, load_or, load_or-store,
}
use make_your_own_redis_go.Server.{Server, LockableList}
use make_your_own_redis_go.Commands.Lists.{new_list, deliver, push_right, prepend, push_left}

-- The loop of RPUSH gives the first elements to the first clients, one each and in their order; what
-- is left of either stays in its order.
pub deliver-zip :
    (cs : List ℕ) (es : List Bytes) (sent : List (ℕ × Bytes))
    → deliver cs es sent ≡ record {
      clients = drop (length es) cs;
      elements = drop (length cs) es;
      sent = sent ++ zip cs es;
    }
unfolding deliver zip zip_with
deliver-zip [] [] sent = rw append-nil
deliver-zip [] (e ∷ es) sent = rw append-nil
deliver-zip (c ∷ cs) [] sent = rw append-nil
deliver-zip (c ∷ cs) (e ∷ es) sent = rw (deliver-zip cs es (sent ++ (c, e) ∷ []), append_assoc)

-- No client waits on a list that has an element.
abbrev pub Served : LockableList → Type 0
Served l = (l.elements ≡ []) ⊎ (l.clients ≡ [])

abbrev pub AllServed : Dict LockableList → Type 0
AllServed lists = Every Served lists

deliver-left :
    (cs : List ℕ) (es : List Bytes) (sent : List (ℕ × Bytes))
    → ((deliver cs es sent).elements ≡ []) ⊎ ((deliver cs es sent).clients ≡ [])
unfolding deliver
deliver-left [] es sent = inr refl
deliver-left (c ∷ cs) [] sent = inl refl
deliver-left (c ∷ cs) (e ∷ es) sent = deliver-left cs es (sent ++ (c, e) ∷ [])

deliver_none : (es : List Bytes) (sent : List (ℕ × Bytes)) → (deliver [] es sent).clients ≡ []
unfolding deliver
deliver_none es sent = refl

deliver-Served :
    (old : List Bytes) (cs : List ℕ) (es : List Bytes) (sent : List (ℕ × Bytes))
    → Served (record { elements = old; clients = cs })
    → Served (record {
      elements = old ++ (deliver cs es sent).elements;
      clients = (deliver cs es sent).clients;
    })
deliver-Served old cs es sent (inl e) = rw e (deliver-left cs es sent)
deliver-Served old cs es sent (inr e) = rw e (inr (deliver_none es sent))

-- RPUSH keeps it: an element is stored only when no client is left waiting.
pub push_right-AllServed :
    (key : Bytes) (es : List Bytes) (s : Server)
    → AllServed s.lists
    → AllServed (push_right key es s).lists
unfolding push_right
push_right-AllServed key es s h =
    Every-store Served key _ s.lists
      (deliver-Served _ _ es s.sent (Every-load_or Served key new_list s.lists (inl refl) h)) h

prepend-reverse : (es l : List Bytes) → prepend es l ≡ reverse es ++ l
unfolding prepend
prepend-reverse [] l = refl
prepend-reverse (e ∷ es) l = prepend-reverse es (e ∷ l) ∙ rw (reverse-cons, append_assoc)

-- The list that LPUSH leaves at its key.
load_or-push_left :
    (key : Bytes) (es : List Bytes) (s : Server)
    → load_or key new_list (push_left key es s).lists ≡ record {
      elements = reverse es ++ (load_or key new_list s.lists).elements;
      clients = (load_or key new_list s.lists).clients;
    }
unfolding push_left
load_or-push_left key es s =
    load_or-store key key new_list _ s.lists
    ∙ rw (beq_refl key, prepend-reverse es (load_or key new_list s.lists).elements)

append-ne-nil : (xs l : List Bytes) (e : Bytes) → xs ++ (e ∷ l) ≢ []
append-ne-nil [] l e h = cc
append-ne-nil (x ∷ xs) l e h = cc

not-Served :
    (es : List Bytes) (e : Bytes) (l : List Bytes) (cs : List ℕ)
    → cs ≢ []
    → ¬ (Served (record { elements = reverse (e ∷ es) ++ l; clients = cs }))
not-Served es e l cs h (inl q) =
    append-ne-nil (reverse es) l e (rw (reverse-cons, append_assoc) at q)
not-Served es e l cs h (inr q) = h q

-- LPUSH of at least one element to a list on which a client waits leaves the client waiting beside
-- elements that it could have: nothing is sent to it.
pub push_left-starves :
    (key e : Bytes) (es : List Bytes) (s : Server)
    → (load_or key new_list s.lists).clients ≢ []
    → ((push_left key (e ∷ es) s).sent ≡ s.sent)
      × ¬ (Served (load_or key new_list (push_left key (e ∷ es) s).lists))
push_left-starves key e es s waiting =
    (unfold push_left in refl, rw load_or-push_left (not-Served es e _ _ waiting))
