-- ===== src/Shared/Dict.antt =====
-- Go's `map` and `sync.Map` with string keys: an association list without repeated keys. Go visits
-- the entries in an order of its own; here it is the order of the list.
use Prim.Native.Nat.{suc}
use mathlib.Core.Logic.{inl, inr}
use make_your_own_redis_go.Shared.Lists.{length}
use make_your_own_redis_go.Shared.Tests.{Bool-cases, if◌then◌else◌}
use make_your_own_redis_go.Shared.Strings.{Bytes, beq, beq_iff}
use mathlib.Core.Path.{◌≡◌, refl, sym, ◌∙◌, subst}
use mathlib.Core.Bool.{Bool, true, false}
use mathlib.Core.Option.{Option, none, some}
use mathlib.Core.List.{List, [], ◌∷◌}
use native.Mathlib.Omega.{arith}

abbrev pub Dict {ℓ} : Type ℓ → Type ℓ
Dict V = List (Bytes × V)

module _ {ℓ} {V : Type ℓ} where
  -- m.Load(k)
  unfoldable pub load : Bytes → Dict V → Option V
  load k [] = none
  load k ((j, v) ∷ m) = if beq j k then some v else load k m

  -- m.Store(k, v)
  unfoldable pub store : Bytes → V → Dict V → Dict V
  store k v [] = (k, v) ∷ []
  store k v ((j, w) ∷ m) = if beq j k then (j, v) ∷ m else (j, w) ∷ store k v m

  -- m.Delete(k)
  unfoldable pub remove : Bytes → Dict V → Dict V
  remove k [] = []
  remove k ((j, w) ∷ m) = let rest = remove k m in if beq j k then rest else (j, w) ∷ rest

  unfoldable pub or_else : V → Option V → V
  or_else v none = v
  or_else v (some w) = w

  -- m.LoadOrStore(k, v): the value that is there afterwards.
  unfoldable pub load_or : Bytes → V → Dict V → V
  load_or k v m = or_else v (load k m)

  -- The keys, in the order of Range.
  unfoldable pub keys : Dict V → List Bytes
  keys [] = []
  keys ((j, w) ∷ m) = j ∷ keys m

  pub load-store :
      (k j : Bytes) (v : V) (m : Dict V)
      → load j (store k v m) ≡ (if beq k j then some v else load j m)
  unfolding load store
  load-store k j v [] = refl
  load-store k j v ((i, w) ∷ m) =
      ground (arith, beq_iff k j, beq_iff i k, beq_iff i j, load-store k j v m)

  pub load-remove :
      (k j : Bytes) (m : Dict V) → load j (remove k m) ≡ (if beq k j then none else load j m)
  unfolding load remove
  load-remove k j [] = ground arith
  load-remove k j ((i, w) ∷ m) =
      ground (arith, beq_iff k j, beq_iff i k, beq_iff i j, load-remove k j m)

  pub store_again : (k : Bytes) (v w : V) (m : Dict V) → store k w (store k v m) ≡ store k w m
  unfolding store
  store_again k v w [] = ground (arith, beq_iff k k)
  store_again k v w ((i, u) ∷ m) = ground (arith, beq_iff i k, store_again k v w m)

  pub load_or-store :
      (k j : Bytes) (v w : V) (m : Dict V)
      → load_or j v (store k w m) ≡ (if beq k j then w else load_or j v m)
  unfolding load_or or_else
  load_or-store k j v w m = ground (arith, load-store k j w m)

pub some_inj {ℓ} : {A : Type ℓ} {a b : A} → some a ≡ some b → a ≡ b
some_inj h = cc

module _ {ℓ} {V : Type ℓ} where
  -- Every value that a key leads to has the property.
  abbrev pub Every : (V → Type 0) → Dict V → Type ℓ
  Every P m = (k : Bytes) (v : V) → load k m ≡ some v → P v

  pub Every-nil : (P : V → Type 0) → Every P []
  unfolding load
  Every-nil P k v h = cc

  Every-if :
      (P : V → Type 0) (b : Bool) (v w : V) (o : Option V)
      → P v
      → (o ≡ some w → P w)
      → (if b then some v else o) ≡ some w
      → P w
  Every-if P true v w o hv ho h = subst P (some_inj h) hv
  Every-if P false v w o hv ho h = ho h

  pub Every-store :
      (P : V → Type 0) (k : Bytes) (v : V) (m : Dict V) → P v → Every P m → Every P (store k v m)
  Every-store P k v m hv hm j w h =
      Every-if P (beq k j) v w (load j m) hv (hm j w) (sym (load-store k j v m) ∙ h)

  Every-or_else :
      (P : V → Type 0) (v : V) (o : Option V) → P v → ((w : V) → o ≡ some w → P w) → P (or_else v o)
  unfolding or_else
  Every-or_else P v none hv ho = hv
  Every-or_else P v (some w) hv ho = ho w refl

  pub Every-load_or :
      (P : V → Type 0) (k : Bytes) (v : V) (m : Dict V) → P v → Every P m → P (load_or k v m)
  unfolding load_or
  Every-load_or P k v m hv hm = Every-or_else P v (load k m) hv (hm k)

module _ {ℓ} {V : Type ℓ} where
  -- Every key stands once.
  abbrev pub IsUnique : Dict V → Type ℓ
  IsUnique [] = Unit
  IsUnique ((k, v) ∷ m) = (load k m ≡ none) × IsUnique m

  pub IsUnique-store : (k : Bytes) (v : V) (m : Dict V) → IsUnique m → IsUnique (store k v m)
  unfolding store
  IsUnique-store k v [] u = (unfold load in refl, tt)
  IsUnique-store k v ((j, w) ∷ m) u = elim (Bool-cases (beq j k)) [
    | inl e ↦ rw e u
    | inr e ↦ rw e (
      ground (arith, load-store k j v m, beq_iff k j, beq_iff j k, u.0),
      IsUnique-store k v m (u.1),
    )
  ]

  pub IsUnique-remove : (k : Bytes) (m : Dict V) → IsUnique m → IsUnique (remove k m)
  unfolding remove
  IsUnique-remove k [] u = tt
  IsUnique-remove k ((j, w) ∷ m) u = elim (Bool-cases (beq j k)) [
    | inl e ↦ rw e (IsUnique-remove k m (u.1))
    | inr e ↦ rw e (ground (arith, load-remove k j m, u.0), IsUnique-remove k m (u.1))
  ]

  pub length-store_new :
      (k : Bytes) (v : V) (m : Dict V) → load k m ≡ none → length (store k v m) ≡ suc (length m)
  unfolding load store
  length-store_new k v [] h = refl
  length-store_new k v ((j, w) ∷ m) h = ground (arith, length-store_new k v m)

  pub length-store_old :
      (k : Bytes) (v w : V) (m : Dict V) → load k m ≡ some w → length (store k v m) ≡ length m
  unfolding load store
  length-store_old k v w [] h = ground arith
  length-store_old k v w ((j, x) ∷ m) h = ground (arith, length-store_old k v w m)

  pub remove-none : (k : Bytes) (m : Dict V) → load k m ≡ none → remove k m ≡ m
  unfolding load remove
  remove-none k [] h = refl
  remove-none k ((j, x) ∷ m) h = ground (arith, remove-none k m)

  pub length-remove :
      (k : Bytes) (w : V) (m : Dict V)
      → IsUnique m
      → load k m ≡ some w
      → suc (length (remove k m)) ≡ length m
  unfolding load remove
  length-remove k w [] u h = ground arith
  length-remove k w ((j, x) ∷ m) u h =
      ground (arith, length-remove k w m (u.1), u.0, remove-none k m, beq_iff j k)
