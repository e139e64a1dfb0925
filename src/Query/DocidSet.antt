-- ===== src/Query/DocidSet.antt =====
-- core/include/snii/query/internal/docid_set_ops.h, core/src/query/docid_set_ops.cpp
-- std::set_intersection and std::set_union compare the fronts of two ranges and advance them.
pub mod Ascending
pub mod Two
pub mod Many
use snii.Common.{ℕ, List, [], ◌∷◌, ltb, if◌then◌else◌}

abbrev pub DocIds : Type 0
DocIds = List ℕ

-- The front of the first range is `x`, and `rest` goes on behind it.
unfoldable pub intersect_front : ℕ → (DocIds → DocIds) → DocIds → DocIds
intersect_front x rest [] = []
intersect_front x rest (y ∷ ys) =
    let advanced = intersect_front x rest ys in
    if ltb x y then rest (y ∷ ys) else if ltb y x then advanced else x ∷ rest ys

unfoldable pub intersect_sorted : DocIds → DocIds → DocIds
intersect_sorted [] b = []
intersect_sorted (x ∷ xs) b = intersect_front x (intersect_sorted xs) b

unfoldable pub union_front : ℕ → DocIds → (DocIds → DocIds) → DocIds → DocIds
union_front x xs rest [] = x ∷ xs
union_front x xs rest (y ∷ ys) =
    let advanced = union_front x xs rest ys in
    if ltb x y then x ∷ rest (y ∷ ys) else if ltb y x then y ∷ advanced else x ∷ rest ys

unfoldable pub union_sorted : DocIds → DocIds → DocIds
union_sorted [] b = b
union_sorted (x ∷ xs) b = union_front x xs (union_sorted xs) b

-- `*acc` behind the call.
unfoldable pub union_sorted_into : DocIds → DocIds → DocIds
union_sorted_into acc next = union_sorted acc next
