-- ===== src/Commands/ZSets/Valid.antt =====
-- The invariant of a sorted set whose scores are numbers.
use make_your_own_redis_go.Shared.{◌≡◌, refl, Bool, true, false, List, none, Bytes, if◌then◌else◌}
use make_your_own_redis_go.Shared.Dict.{Dict}
use make_your_own_redis_go.Float.{Float64, is_nan}
use make_your_own_redis_go.Server.{SortedSet, SortedSetElement}
use make_your_own_redis_go.Commands.ZSets.{
  new_set, member, cut_name, place, add_element, remove_element,
}
use make_your_own_redis_go.Commands.ZSets.Order.{IsOrdered, place-insert_ordered}
use make_your_own_redis_go.Commands.ZSets.Names.{
  score_in, IsOrdered-cut_name, IsOrdered-insert_ordered,
}
use make_your_own_redis_go.Commands.ZSets.Indexed.{
  Indexes, IsIndexed, IsIndexed-new_set, add_element-IsIndexed, remove_element-IsIndexed,
  score_in-cut_name_self, score_in-absent,
}

-- The order lists the entries of the map, sorted by score and then by name.
pub record IsValid (z : SortedSet) : Type 0 where
  pub ordered : IsOrdered z.order
  pub indexed : IsIndexed z

pub IsValid-new_set : IsValid new_set
IsValid-new_set = record { ordered = tt; indexed = IsIndexed-new_set }

-- Removal keeps the invariant, for every name.
pub remove_element-IsValid :
    (name : Bytes) (z : SortedSet) → IsValid z → IsValid (remove_element name z)
unfolding remove_element
remove_element-IsValid name z v = record {
  ordered = IsOrdered-cut_name name z.order v.ordered;
  indexed = remove_element-IsIndexed name z v.indexed;
}

IsOrdered-place :
    (name : Bytes) (score : Float64) (es : List SortedSetElement)
    → is_nan score ≡ false
    → score_in name es ≡ none
    → IsOrdered es
    → IsOrdered (place name score es)
IsOrdered-place name score es number absent o =
    let e : SortedSetElement = record { name = name; score = score } in
    rw (place-insert_ordered e number es o) (IsOrdered-insert_ordered e es number absent o)

IsOrdered-placed :
    (known : Bool) (name : Bytes) (score : Float64) (d : Dict Float64) (es : List SortedSetElement)
    → member name d ≡ known
    → is_nan score ≡ false
    → Indexes d es
    → IsOrdered es
    → IsOrdered (place name score (if known then cut_name name es else es))
IsOrdered-placed true name score d es k number v o =
    IsOrdered-place name score (cut_name name es) number (score_in-cut_name_self name es v.distinct)
      (IsOrdered-cut_name name es o)
IsOrdered-placed false name score d es k number v o =
    IsOrdered-place name score es number (score_in-absent name d es v k) o

-- AddToSortedSet keeps the invariant for a score that is a number: the name has the new score, no
-- other entry has changed, and the order is sorted again.
pub add_element-IsValid :
    (name : Bytes) (score : Float64) (z : SortedSet)
    → is_nan score ≡ false
    → IsValid z
    → IsValid (add_element name score z).0
unfolding add_element
add_element-IsValid name score z number v = record {
  ordered =
      IsOrdered-placed (member name z.elements) name score z.elements z.order refl number v.indexed
        v.ordered;
  indexed = add_element-IsIndexed name score z v.indexed;
}
