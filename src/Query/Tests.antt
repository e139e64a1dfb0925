-- ===== src/Query/Tests.antt =====
-- Runs of core/src/query at concrete inputs.
use snii.Query.DocidSet.Many.Union.{union_sorted_many_lem, any_has}
use snii.Common.{All, true, ◌++◌, List, ℕ, ◌≡◌, refl, arith, [], ◌∷◌, ◌&&◌, ◌||◌}
use snii.Query.DocidSet.Many.{
  union_sorted_many, merged, non_empty, merge_loop, fill_heap, push_next, take_top, is_new, total,
}
use snii.Query.Wildcard.{
  wildcard_match, pattern_loop, next_row, star_loop, char_loop, literal_prefix_for_wildcard,
}
use snii.Query.Wildcard.Matches.{matches, wildcard_match-matches, literal_prefix_for_wildcard_lem}
use snii.Query.DocidSet.{
  DocIds, intersect_front, intersect_sorted, union_front, union_sorted, union_sorted_into,
}
use snii.Query.DocidSet.Ascending.{has, IsAscending}
use snii.Query.DocidSet.Two.{intersect_sorted_lem, union_sorted_into_lem}

abbrev left : DocIds
left = 1 ∷ 4 ∷ 9 ∷ []

abbrev right : DocIds
right = 4 ∷ 5 ∷ 9 ∷ []

left-IsAscending : IsAscending left
left-IsAscending = ((omega arith, (omega arith, tt)), ((omega arith, tt), (tt, tt)))

right-IsAscending : IsAscending right
right-IsAscending = ((omega arith, (omega arith, tt)), ((omega arith, tt), (tt, tt)))

intersects : intersect_sorted left right ≡ 4 ∷ 9 ∷ []
unfolding intersect_sorted intersect_front
intersects = refl

unites : union_sorted_into left right ≡ 1 ∷ 4 ∷ 5 ∷ 9 ∷ []
unfolding union_sorted_into union_sorted union_front
unites = refl

intersect_sorted_lem_example :
    IsAscending (intersect_sorted left right)
    × ((d : ℕ) → has d (intersect_sorted left right) ≡ (has d left && has d right))
intersect_sorted_lem_example = intersect_sorted_lem left right left-IsAscending right-IsAscending

union_sorted_into_lem_example :
    IsAscending (union_sorted_into left right)
    × ((d : ℕ) → has d (union_sorted_into left right) ≡ (has d left || has d right))
union_sorted_into_lem_example = union_sorted_into_lem left right left-IsAscending right-IsAscending

-- "a*c" and "abbc"
abbrev pattern : List ℕ
pattern = 97 ∷ 42 ∷ 99 ∷ []

abbrev text : List ℕ
text = 97 ∷ 98 ∷ 98 ∷ 99 ∷ []

accepts_text : wildcard_match pattern text ≡ true
unfolding wildcard_match pattern_loop next_row star_loop char_loop
accepts_text = refl

wildcard_match-matches_example : wildcard_match pattern text ≡ matches pattern text
wildcard_match-matches_example = wildcard_match-matches pattern text

literal_prefix_for_wildcard_lem_example :
    (rest : List ℕ) × (text ≡ literal_prefix_for_wildcard pattern ++ rest)
literal_prefix_for_wildcard_lem_example = literal_prefix_for_wildcard_lem pattern text accepts_text

unites_many : union_sorted_many ((1 ∷ 4 ∷ []) ∷ [] ∷ (2 ∷ 4 ∷ 9 ∷ []) ∷ []) ≡ 1 ∷ 2 ∷ 4 ∷ 9 ∷ []
unfolding union_sorted_many merged non_empty merge_loop fill_heap push_next take_top is_new total
unites_many = refl

abbrev lists : List (List ℕ)
lists = (1 ∷ 4 ∷ []) ∷ [] ∷ (2 ∷ 4 ∷ 9 ∷ []) ∷ []

lists-IsAscending : All IsAscending lists
lists-IsAscending = (
  ((omega arith, tt), (tt, tt)),
  (tt, (((omega arith, (omega arith, tt)), ((omega arith, tt), (tt, tt))), tt)),
)

union_sorted_many_lem_example :
    IsAscending (union_sorted_many lists)
    × ((d : ℕ) → has d (union_sorted_many lists) ≡ any_has d lists)
union_sorted_many_lem_example = union_sorted_many_lem lists lists-IsAscending
