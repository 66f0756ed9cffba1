-- ===== src/Commands/ZSets/Ranks.antt =====
-- ZRANK: the loop over the order finds the position of a name.
use make_your_own_redis_go.Shared.{
  ℕ, suc, ◌+◌, ◌≡◌, sym, ap, ◌∙◌, List, [], ◌∷◌, some, Bytes, arith, get_elem?, beq, beq_sound,
  Bool-cases, inl, inr,
}
use make_your_own_redis_go.Shared.Dict.{load}
use make_your_own_redis_go.Float.{Float64}
use make_your_own_redis_go.Server.{SortedSet, SortedSetElement}
use make_your_own_redis_go.Commands.ZSets.{rank_from}
use make_your_own_redis_go.Commands.ZSets.Names.{score_in}
use make_your_own_redis_go.Commands.ZSets.Indexed.{IsIndexed}

abbrev Ranked : ℕ → Bytes → Float64 → List SortedSetElement → Type 0
Ranked n name score es =
    (r : ℕ) × (rank_from n name es ≡ some (n + r))
    × (get_elem? es r ≡ some (record { name = name; score = score }))

element :
    {name : Bytes} {score : Float64} (e : SortedSetElement)
    → e.name ≡ name
    → e.score ≡ score
    → e ≡ record { name = name; score = score }
element e h k = cc

rank_from-Ranked :
    (n : ℕ) (name : Bytes) (score : Float64) (es : List SortedSetElement)
    → score_in name es ≡ some score
    → Ranked n name score es
unfolding score_in rank_from
rank_from-Ranked n name score [] h = ground arith
rank_from-Ranked n name score (e ∷ es) h = elim (Bool-cases (beq e.name name)) [
  | inl same ↦ (
    0,
    rw same (ap some (omega arith)),
    ap some (element e (beq_sound e.name name same) (ground arith)),
  )
  | inr other ↦
      let found = rank_from-Ranked (n + 1) name score es (ground arith) in
      (suc (found.0), rw other (found.1 ∙ ap some (omega arith)), found.2)
]

-- In an indexed sorted set the rank that ZRANK computes for a name of the map is the position of the
-- name in the order, where it stands with the score of the map.
pub rank_from-get_elem :
    (name : Bytes) (score : Float64) (z : SortedSet)
    → IsIndexed z
    → load name z.elements ≡ some score
    → (r : ℕ) × (rank_from 0 name z.order ≡ some r)
      × (get_elem? z.order r ≡ some (record { name = name; score = score }))
rank_from-get_elem name score z v h =
    let found = rank_from-Ranked 0 name score z.order (sym (v.agrees name) ∙ h) in
    (found.0, found.1 ∙ ap some (omega arith), found.2)
