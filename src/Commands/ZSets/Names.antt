-- ===== src/Commands/ZSets/Names.antt =====
-- Names in the order of a sorted set: what insertion and removal do to lookups, and that both keep the
-- order and each name once.
use make_your_own_redis_go.Shared.{
  ℕ, zero, suc, ap, length, ◌≡◌, ◌≢◌, refl, true, false, List, [], ◌∷◌, Option, none, some, Bytes,
  arith, if◌then◌else◌, beq, beq_iff, bytes_lt_total, Bool-cases, inl, inr,
}
use make_your_own_redis_go.Float.{Float64, float_eq, float_lt}
use make_your_own_redis_go.Server.{SortedSetElement}
use make_your_own_redis_go.Commands.ZSets.{cut_name, insert_at}
use make_your_own_redis_go.Commands.ZSets.Order.{
  IsNumber, precedes, precedes_trans, AllAfter, IsOrdered, insert_ordered,
}

-- The score of a name in the order.
unfoldable pub score_in : Bytes → List SortedSetElement → Option Float64
score_in name [] = none
score_in name (e ∷ es) = if beq e.name name then some e.score else score_in name es

-- Every name stands once.
abbrev pub IsDistinct : List SortedSetElement → Type 0
IsDistinct [] = Unit
IsDistinct (e ∷ es) = (score_in e.name es ≡ none) × IsDistinct es

pub score_in-cut_name :
    (gone name : Bytes) (es : List SortedSetElement)
    → IsDistinct es
    → score_in name (cut_name gone es) ≡ (if beq gone name then none else score_in name es)
unfolding score_in cut_name
score_in-cut_name gone name [] d = ground arith
score_in-cut_name gone name (x ∷ xs) d = ground (
  arith,
  beq_iff x.name gone,
  beq_iff x.name name,
  beq_iff gone name,
  d.0,
  score_in-cut_name gone name xs (d.1),
)

pub IsDistinct-cut_name :
    (gone : Bytes) (es : List SortedSetElement) → IsDistinct es → IsDistinct (cut_name gone es)
unfolding cut_name
IsDistinct-cut_name gone [] d = tt
IsDistinct-cut_name gone (x ∷ xs) d = elim (Bool-cases (beq x.name gone)) [
  | inl e ↦ rw e (d.1)
  | inr e ↦ rw e (
    ground (arith, score_in-cut_name gone x.name xs (d.1), d.0),
    IsDistinct-cut_name gone xs (d.1),
  )
]

-- A name that is not in the order differs from the first one.
pub absent_cons :
    (name : Bytes) (x : SortedSetElement) (xs : List SortedSetElement)
    → score_in name (x ∷ xs) ≡ none
    → (beq x.name name ≡ false) × (score_in name xs ≡ none)
unfolding score_in
absent_cons name x xs h = ground arith

pub score_in-insert_at :
    (k : ℕ) (e : SortedSetElement) (es : List SortedSetElement) (name : Bytes)
    → score_in e.name es ≡ none
    → score_in name (insert_at k e es)
      ≡ (if beq e.name name then some e.score else score_in name es)
unfolding score_in insert_at
score_in-insert_at zero e es name h = refl
score_in-insert_at (suc k) e [] name h = refl
score_in-insert_at (suc k) e (x ∷ xs) name h = ground (
  arith,
  beq_iff x.name e.name,
  beq_iff x.name name,
  beq_iff e.name name,
  score_in-insert_at k e xs name,
)

pub IsDistinct-insert_at :
    (k : ℕ) (e : SortedSetElement) (es : List SortedSetElement)
    → score_in e.name es ≡ none
    → IsDistinct es
    → IsDistinct (insert_at k e es)
unfolding insert_at
IsDistinct-insert_at zero e es h d = (h, d)
IsDistinct-insert_at (suc k) e [] h d = (h, tt)
IsDistinct-insert_at (suc k) e (x ∷ xs) h d =
    let (differs, absent) = absent_cons e.name x xs h in
    (
      ground (
        arith,
        score_in-insert_at k e xs x.name absent,
        beq_iff x.name e.name,
        beq_iff e.name x.name,
        d.0,
      ),
      IsDistinct-insert_at k e xs absent (d.1),
    )

pub length-insert_at :
    (k : ℕ) (e : SortedSetElement) (es : List SortedSetElement)
    → length (insert_at k e es) ≡ suc (length es)
unfolding insert_at
length-insert_at zero e es = refl
length-insert_at (suc k) e [] = refl
length-insert_at (suc k) e (x ∷ xs) = ap suc (length-insert_at k e xs)

pub cut_name-none :
    (name : Bytes) (es : List SortedSetElement) → score_in name es ≡ none → cut_name name es ≡ es
unfolding score_in cut_name
cut_name-none name [] h = refl
cut_name-none name (x ∷ xs) h = ground (arith, cut_name-none name xs)

pub length-cut_name :
    (name : Bytes) (score : Float64) (es : List SortedSetElement)
    → score_in name es ≡ some score
    → suc (length (cut_name name es)) ≡ length es
unfolding score_in cut_name
length-cut_name name score [] h = ground arith
length-cut_name name score (x ∷ xs) h = ground (arith, length-cut_name name score xs)

AllAfter-cut_name :
    (e : SortedSetElement) (gone : Bytes) (es : List SortedSetElement)
    → AllAfter e es
    → AllAfter e (cut_name gone es)
unfolding cut_name
AllAfter-cut_name e gone [] a = tt
AllAfter-cut_name e gone (x ∷ xs) a = elim (Bool-cases (beq x.name gone)) [
  | inl q ↦ rw q (a.1)
  | inr q ↦ rw q (a.0, AllAfter-cut_name e gone xs (a.1))
]

pub IsOrdered-cut_name :
    (gone : Bytes) (es : List SortedSetElement) → IsOrdered es → IsOrdered (cut_name gone es)
unfolding cut_name
IsOrdered-cut_name gone [] o = tt
IsOrdered-cut_name gone (x ∷ xs) o = elim (Bool-cases (beq x.name gone)) [
  | inl q ↦ rw q (o.2)
  | inr q ↦ rw q (o.0, AllAfter-cut_name x gone xs (o.1), IsOrdered-cut_name gone xs (o.2))
]

-- Of two numbers with different names one comes first.
precedes_total :
    (a b : SortedSetElement)
    → IsNumber a
    → IsNumber b
    → a.name ≢ b.name
    → precedes a b ≡ false
    → precedes b a ≡ true
unfolding precedes float_lt float_eq
precedes_total a b ha hb ne h = ground (arith, bytes_lt_total a.name b.name)

AllAfter-trans :
    (a b : SortedSetElement) (es : List SortedSetElement)
    → precedes a b ≡ true
    → AllAfter b es
    → AllAfter a es
AllAfter-trans a b [] p h = tt
AllAfter-trans a b (x ∷ xs) p h = (precedes_trans a b x p (h.0), AllAfter-trans a b xs p (h.1))

AllAfter-insert_ordered :
    (a e : SortedSetElement) (es : List SortedSetElement)
    → precedes a e ≡ true
    → AllAfter a es
    → AllAfter a (insert_ordered e es)
unfolding insert_ordered
AllAfter-insert_ordered a e [] p h = (p, tt)
AllAfter-insert_ordered a e (x ∷ xs) p h = elim (Bool-cases (precedes x e)) [
  | inl q ↦ rw q (h.0, AllAfter-insert_ordered a e xs p (h.1))
  | inr q ↦ rw q (p, (h.0, h.1))
]

pub IsOrdered-insert_ordered :
    (e : SortedSetElement) (es : List SortedSetElement)
    → IsNumber e
    → score_in e.name es ≡ none
    → IsOrdered es
    → IsOrdered (insert_ordered e es)
unfolding insert_ordered
IsOrdered-insert_ordered e [] he h o = (he, tt, tt)
IsOrdered-insert_ordered e (x ∷ xs) he h o =
    let (differs, absent) = absent_cons e.name x xs h in
    elim (Bool-cases (precedes x e)) [
      | inl q ↦ rw q (
        o.0,
        AllAfter-insert_ordered x e xs q (o.1),
        IsOrdered-insert_ordered e xs he absent (o.2),
      )
      | inr q ↦
          let first : precedes e x ≡ true =
            precedes_total x e (o.0) he (λ p. absurd (names_differ p differs)) q in
          rw q (he, (first, AllAfter-trans e x xs first (o.1)), o)
    ]
  where
    names_differ : {a b : Bytes} → a ≡ b → beq a b ≡ false → ⊥
    names_differ {a} {b} p f = ground (arith, beq_iff a b)
