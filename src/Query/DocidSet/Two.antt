-- ===== src/Query/DocidSet/Two.antt =====
-- intersect_sorted and union_sorted_into of core/src/query/docid_set_ops.cpp on ascending lists.
use snii.Query.DocidSet.Ascending.{Above-has, has→Above, has, Above, IsAscending, has-Above}
use snii.Common.{ℕ, ◌<◌, ◌≡◌, refl, arith, [], ◌∷◌, ◌||◌, ◌&&◌}
use snii.Query.DocidSet.{
  DocIds, intersect_front, intersect_sorted, union_front, union_sorted, union_sorted_into,
}

-- `rest` intersects `xs` with an ascending list.
abbrev Meets : DocIds → (DocIds → DocIds) → Type 0
Meets xs rest = (ys : DocIds) → IsAscending ys → (d : ℕ) → has d (rest ys) ≡ (has d xs && has d ys)

has-intersect_front :
    (x : ℕ) (xs : DocIds) (rest : DocIds → DocIds)
    → Above x xs
    → Meets xs rest
    → (ys : DocIds) → IsAscending ys
    → (d : ℕ) → has d (intersect_front x rest ys) ≡ (has d (x ∷ xs) && has d ys)
unfolding intersect_front
has-intersect_front x xs rest a m [] v d = ground arith
has-intersect_front x xs rest a m (y ∷ ys) (ay, vy) d = ground (
  arith,
  m (y ∷ ys) (ay, vy) d,
  m ys vy d,
  has-intersect_front x xs rest a m ys vy d,
  has-Above d x xs,
  has-Above d y ys,
)

has-intersect_sorted : (xs : DocIds) → IsAscending xs → Meets xs (intersect_sorted xs)
unfolding intersect_sorted
has-intersect_sorted [] v ys vy d = refl
has-intersect_sorted (x ∷ xs) (a, v) ys vy d =
    has-intersect_front x xs (intersect_sorted xs) a (has-intersect_sorted xs v) ys vy d

intersect_front-IsAscending :
    (x : ℕ) (xs : DocIds) (rest : DocIds → DocIds)
    → Above x xs
    → Meets xs rest
    → ((ys : DocIds) → IsAscending ys → IsAscending (rest ys))
    → (ys : DocIds) → IsAscending ys
    → IsAscending (intersect_front x rest ys)
unfolding intersect_front
intersect_front-IsAscending x xs rest a m asc [] v = tt
intersect_front-IsAscending x xs rest a m asc (y ∷ ys) (ay, vy) = ground (
  arith,
  asc (y ∷ ys) (ay, vy),
  asc ys vy,
  intersect_front-IsAscending x xs rest a m asc ys vy,
  above,
)
  where
    above : Above x (rest ys)
    above = has→Above x (rest ys) λ d h. ground (arith, m ys vy d, Above-has x d xs a)

intersect_sorted-IsAscending :
    (xs : DocIds)
    → IsAscending xs
    → (ys : DocIds) → IsAscending ys
    → IsAscending (intersect_sorted xs ys)
unfolding intersect_sorted
intersect_sorted-IsAscending [] v ys vy = tt
intersect_sorted-IsAscending (x ∷ xs) (a, v) ys vy =
    intersect_front-IsAscending x xs (intersect_sorted xs) a (has-intersect_sorted xs v)
      (intersect_sorted-IsAscending xs v) ys vy

-- intersect_sorted of two ascending lists is ascending, without repetition, and holds the ids that
-- stand in both and no other.
pub intersect_sorted_lem :
    (a b : DocIds)
    → IsAscending a
    → IsAscending b
    → IsAscending (intersect_sorted a b)
      × ((d : ℕ) → has d (intersect_sorted a b) ≡ (has d a && has d b))
intersect_sorted_lem a b va vb =
    (intersect_sorted-IsAscending a va b vb, has-intersect_sorted a va b vb)

-- `rest` unites `xs` with a list.
abbrev Joins : DocIds → (DocIds → DocIds) → Type 0
Joins xs rest = (ys : DocIds) (d : ℕ) → has d (rest ys) ≡ (has d xs || has d ys)

has-union_front :
    (x : ℕ) (xs : DocIds) (rest : DocIds → DocIds)
    → Joins xs rest
    → (ys : DocIds) (d : ℕ) → has d (union_front x xs rest ys) ≡ (has d (x ∷ xs) || has d ys)
unfolding union_front
has-union_front x xs rest m [] d = ground arith
has-union_front x xs rest m (y ∷ ys) d =
    ground (arith, m (y ∷ ys) d, m ys d, has-union_front x xs rest m ys d)

has-union_sorted : (xs : DocIds) → Joins xs (union_sorted xs)
unfolding union_sorted
has-union_sorted [] ys d = refl
has-union_sorted (x ∷ xs) ys d = has-union_front x xs (union_sorted xs) (has-union_sorted xs) ys d

union_front-IsAscending :
    (x : ℕ) (xs : DocIds) (rest : DocIds → DocIds)
    → IsAscending (x ∷ xs)
    → Joins xs rest
    → ((ys : DocIds) → IsAscending ys → IsAscending (rest ys))
    → (ys : DocIds) → IsAscending ys
    → IsAscending (union_front x xs rest ys)
unfolding union_front
union_front-IsAscending x xs rest v m asc [] vy = v
union_front-IsAscending x xs rest (a, v) m asc (y ∷ ys) (ay, vy) = ground (
  arith,
  asc (y ∷ ys) (ay, vy),
  asc ys vy,
  union_front-IsAscending x xs rest (a, v) m asc ys vy,
  left,
  right,
  both,
)
  where
    left : x < y → Above x (rest (y ∷ ys))
    left l =
        has→Above x (rest (y ∷ ys))
          λ d h. ground (arith, m (y ∷ ys) d, Above-has x d xs a, Above-has y d ys ay)

    right : y < x → Above y (union_front x xs rest ys)
    right l = has→Above y (union_front x xs rest ys) λ d h.
        ground (arith, has-union_front x xs rest m ys d, Above-has x d xs a, Above-has y d ys ay)

    both : x ≡ y → Above x (rest ys)
    both e =
        has→Above x (rest ys) λ d h. ground (arith, m ys d, Above-has x d xs a, Above-has y d ys ay)

union_sorted-IsAscending :
    (xs : DocIds)
    → IsAscending xs
    → (ys : DocIds) → IsAscending ys
    → IsAscending (union_sorted xs ys)
unfolding union_sorted
union_sorted-IsAscending [] v ys vy = vy
union_sorted-IsAscending (x ∷ xs) (a, v) ys vy =
    union_front-IsAscending x xs (union_sorted xs) (a, v) (has-union_sorted xs)
      (union_sorted-IsAscending xs v) ys vy

-- union_sorted_into of two ascending lists leaves an ascending list, without repetition, of the ids
-- that stand in one of the two and no other.
pub union_sorted_into_lem :
    (acc next : DocIds)
    → IsAscending acc
    → IsAscending next
    → IsAscending (union_sorted_into acc next)
      × ((d : ℕ) → has d (union_sorted_into acc next) ≡ (has d acc || has d next))
unfolding union_sorted_into
union_sorted_into_lem acc next va vb =
    (union_sorted-IsAscending acc va next vb, has-union_sorted acc next)
