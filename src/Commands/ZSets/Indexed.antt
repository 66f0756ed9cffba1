-- ===== src/Commands/ZSets/Indexed.antt =====
-- What holds of every sorted set whatever the scores are, those that are no numbers included: the
-- order lists each entry of the map once, with its score.
use make_your_own_redis_go.Shared.{
  ℕ, suc, ◌≡◌, refl, sym, ap, ◌∙◌, Option-cases, inl, inr, length, Bool, true, false, List, none,
  some, Bytes, arith, if◌then◌else◌, beq, beq_refl,
}
use make_your_own_redis_go.Shared.Dict.{
  IsUnique, IsUnique-store, IsUnique-remove, length-store_new, length-store_old, length-remove,
  remove-none, Dict, load, store, remove, load-store, load-remove,
}
use make_your_own_redis_go.Float.{Float64}
use make_your_own_redis_go.Server.{SortedSet, SortedSetElement}
use make_your_own_redis_go.Commands.ZSets.{
  new_set, member, cut_name, insert_at, place, add_element, remove_element,
}
use make_your_own_redis_go.Commands.ZSets.Names.{
  score_in-insert_at, IsDistinct-insert_at, length-insert_at, cut_name-none, length-cut_name,
  score_in, IsDistinct, score_in-cut_name, IsDistinct-cut_name,
}

pub record Indexes (d : Dict Float64) (es : List SortedSetElement) : Type 0 where
  pub distinct : IsDistinct es
  pub agrees : (name : Bytes) → load name d ≡ score_in name es
  pub unique : IsUnique d
  pub sizes : length d ≡ length es

abbrev pub IsIndexed : SortedSet → Type 0
IsIndexed z = Indexes z.elements z.order

pub IsIndexed-new_set : IsIndexed new_set
unfolding load score_in
IsIndexed-new_set = record { distinct = tt; agrees = λ name. refl; unique = tt; sizes = refl }

sizes-cut_name :
    (name : Bytes) (d : Dict Float64) (es : List SortedSetElement)
    → Indexes d es
    → length (remove name d) ≡ length (cut_name name es)
sizes-cut_name name d es v = elim (Option-cases (load name d)) [
  | inl gone ↦
      rw (remove-none name d gone, cut_name-none name es (sym (v.agrees name) ∙ gone)) v.sizes
  | inr (score, there) ↦ omega (
    arith,
    length-remove name score d v.unique there,
    length-cut_name name score es (sym (v.agrees name) ∙ there),
    v.sizes,
  )
]

pub Indexes-cut_name :
    (name : Bytes) (d : Dict Float64) (es : List SortedSetElement)
    → Indexes d es
    → Indexes (remove name d) (cut_name name es)
Indexes-cut_name name d es v = record {
  distinct = IsDistinct-cut_name name es v.distinct;
  agrees = λ j. rw (load-remove name j d, score_in-cut_name name j es v.distinct, v.agrees j);
  unique = IsUnique-remove name d v.unique;
  sizes = sizes-cut_name name d es v;
}

-- ZREM keeps it.
pub remove_element-IsIndexed :
    (name : Bytes) (z : SortedSet) → IsIndexed z → IsIndexed (remove_element name z)
unfolding remove_element
remove_element-IsIndexed name z v = Indexes-cut_name name z.elements z.order v

Indexes-insert_at :
    (k : ℕ) (e : SortedSetElement) (d : Dict Float64) (es : List SortedSetElement)
    → IsDistinct es
    → score_in e.name es ≡ none
    → ((j : Bytes) → load j d ≡ (if beq e.name j then some e.score else score_in j es))
    → IsUnique d
    → length d ≡ suc (length es)
    → Indexes d (insert_at k e es)
Indexes-insert_at k e d es dist absent agrees unique size = record {
  distinct = IsDistinct-insert_at k e es absent dist;
  agrees = λ j. agrees j ∙ sym (score_in-insert_at k e es j absent);
  unique = unique;
  sizes = size ∙ sym (length-insert_at k e es);
}

pub score_in-cut_name_self :
    (name : Bytes) (es : List SortedSetElement)
    → IsDistinct es
    → score_in name (cut_name name es) ≡ none
score_in-cut_name_self name es d = score_in-cut_name name name es d ∙ rw (beq_refl name)

pub score_in-absent :
    (name : Bytes) (d : Dict Float64) (es : List SortedSetElement)
    → Indexes d es
    → member name d ≡ false
    → score_in name es ≡ none
unfolding member
score_in-absent name d es v h = ground (arith, v.agrees name)

load-store_cut :
    (name j : Bytes) (score : Float64) (d : Dict Float64) (es : List SortedSetElement)
    → Indexes d es
    → load j (store name score d)
      ≡ (if beq name j then some score else score_in j (cut_name name es))
load-store_cut name j score d es v =
    rw (load-store name j score d, score_in-cut_name name j es v.distinct, v.agrees j)
      (ground arith)

member-false : (name : Bytes) (d : Dict Float64) → member name d ≡ false → load name d ≡ none
unfolding member
member-false name d h = ground arith

member-true :
    (name : Bytes) (d : Dict Float64)
    → member name d ≡ true
    → (score : Float64) × (load name d ≡ some score)
unfolding member
member-true name d h = elim (Option-cases (load name d)) [
  | inl gone ↦ absurd (true-false (sym h ∙ rw (member, gone)))
  | inr found ↦ found
]
  where
    true-false : true ≡ false → ⊥
    true-false e = cc

length-store_known :
    (name : Bytes) (score : Float64) (d : Dict Float64) (es : List SortedSetElement)
    → member name d ≡ true
    → Indexes d es
    → length (store name score d) ≡ suc (length (cut_name name es))
length-store_known name score d es k v =
    let (old, there) = member-true name d k in
    length-store_old name score old d there
    ∙ v.sizes
    ∙ sym (length-cut_name name old es (sym (v.agrees name) ∙ there))

Indexes-place :
    (known : Bool) (name : Bytes) (score : Float64) (d : Dict Float64) (es : List SortedSetElement)
    → member name d ≡ known
    → Indexes d es
    → Indexes (store name score d) (place name score (if known then cut_name name es else es))
unfolding place
Indexes-place true name score d es k v =
    Indexes-insert_at _ (record { name = name; score = score }) (store name score d)
      (cut_name name es) (IsDistinct-cut_name name es v.distinct)
      (score_in-cut_name_self name es v.distinct) (λ j. load-store_cut name j score d es v)
      (IsUnique-store name score d v.unique) (length-store_known name score d es k v)
Indexes-place false name score d es k v =
    Indexes-insert_at _ (record { name = name; score = score }) (store name score d) es v.distinct
      (score_in-absent name d es v k) (λ j. load-store name j score d ∙ rw (v.agrees j))
      (IsUnique-store name score d v.unique)
      (length-store_new name score d (member-false name d k) ∙ ap suc v.sizes)

-- AddToSortedSet keeps it, for every score.
pub add_element-IsIndexed :
    (name : Bytes) (score : Float64) (z : SortedSet)
    → IsIndexed z
    → IsIndexed (add_element name score z).0
unfolding add_element
add_element-IsIndexed name score z v =
    Indexes-place (member name z.elements) name score z.elements z.order refl v
