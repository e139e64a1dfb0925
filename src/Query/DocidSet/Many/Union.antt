-- ===== src/Query/DocidSet/Many/Union.antt =====
-- union_sorted_many of core/src/query/docid_set_ops.cpp and its result.
use snii.Query.DocidSet.Many.{
  is_new, fill_heap, merge_loop, total, non_empty, merged, union_sorted_many,
}
use snii.Common.{
  ℕ, ◌+◌, ◌≡◌, refl, ap, arith, List, [], ◌∷◌, ◌++◌, none, Bool, false, ◌||◌, length, All,
  append_assoc, length-append, get_or, get_or-append,
}
use snii.Query.DocidSet.{DocIds}
use snii.Query.DocidSet.Ascending.{has, IsAscending}
use snii.Query.DocidSet.Many.Heap.{IsGood, heap_has, heap_size}
use snii.Query.DocidSet.Many.Loop.{merge_loop-Merges}

-- Some list holds the id.
abbrev pub any_has : ℕ → List DocIds → Bool
any_has d [] = false
any_has d (docs ∷ lists) = has d docs || any_has d lists

record Fills (lists suffix : List DocIds) (i : ℕ) : Type 0 where
  has_all : (d : ℕ) → heap_has lists d (fill_heap suffix i) ≡ any_has d suffix
  size_all : heap_size lists (fill_heap suffix i) ≡ total suffix
  good : All (IsGood lists) (fill_heap suffix i)

-- The list at the front is behind the others now.
moved_on :
    (pre suffix : List DocIds) (docs : DocIds)
    → Fills ((pre ++ (docs ∷ [])) ++ suffix) suffix (length (pre ++ (docs ∷ [])))
    → Fills (pre ++ (docs ∷ suffix)) suffix (length pre + 1)
moved_on pre suffix docs f =
    rw (append_assoc pre (docs ∷ []) suffix, length-append pre (docs ∷ [])) at f

fill_heap-Fills :
    (pre suffix : List DocIds) → All IsAscending suffix → Fills (pre ++ suffix) suffix (length pre)
unfolding fill_heap heap_has heap_size total
fill_heap-Fills pre [] v = record { has_all = λ d. refl; size_all = refl; good = tt }
fill_heap-Fills pre ([] ∷ suffix) (v, vs) =
    let rest = moved_on pre suffix [] (fill_heap-Fills (pre ++ ([] ∷ [])) suffix vs) in
    record {
      has_all = λ d. rest.has_all d;
      size_all = omega (arith, rest.size_all);
      good = rest.good;
    }
fill_heap-Fills pre ((x ∷ docs) ∷ suffix) (v, vs) =
    let rest =
      moved_on pre suffix (x ∷ docs) (fill_heap-Fills (pre ++ ((x ∷ docs) ∷ [])) suffix vs) in
    let here : get_or (pre ++ ((x ∷ docs) ∷ suffix)) (length pre) [] ≡ x ∷ docs =
      get_or-append pre suffix (x ∷ docs) [] in
    record {
      has_all = λ d. rw (here, rest.has_all d) refl;
      size_all = rw here (omega (arith, rest.size_all));
      good = (rw here v, rest.good);
    }

any_has-non_empty : (d : ℕ) (lists : List DocIds) → any_has d (non_empty lists) ≡ any_has d lists
unfolding non_empty
any_has-non_empty d [] = refl
any_has-non_empty d ([] ∷ lists) = any_has-non_empty d lists
any_has-non_empty d ((x ∷ docs) ∷ lists) =
    ap (λ b. has d (x ∷ docs) || b) (any_has-non_empty d lists)

non_empty-IsAscending :
    (lists : List DocIds) → All IsAscending lists → All IsAscending (non_empty lists)
unfolding non_empty
non_empty-IsAscending [] v = tt
non_empty-IsAscending ([] ∷ lists) (v, vs) = non_empty-IsAscending lists vs
non_empty-IsAscending ((x ∷ docs) ∷ lists) (v, vs) = (v, non_empty-IsAscending lists vs)

-- The answer is ascending, and holds the ids that some list holds.
abbrev Unites : List DocIds → DocIds → Type 0
Unites lists out = IsAscending out × ((d : ℕ) → has d out ≡ any_has d lists)

heap-Unites :
    (lists : List DocIds)
    → All IsAscending lists
    → Unites lists (merge_loop (total lists) lists (fill_heap lists 0) none)
heap-Unites lists v =
    let filled = fill_heap-Fills [] lists v in
    let (same, asc) =
      merge_loop-Merges lists (total lists) (fill_heap lists 0) none filled.good
        (omega (arith, filled.size_all)) tt in
    (asc, λ d. unfold is_new in ground (arith, same d, filled.has_all d))

merged-Unites :
    (lists ns : List DocIds)
    → All IsAscending lists
    → All IsAscending ns
    → ((d : ℕ) → any_has d ns ≡ any_has d lists)
    → Unites lists (merged lists ns)
unfolding merged
merged-Unites lists [] v vs same = (tt, same)
merged-Unites lists (docs ∷ []) v (vd, vs) same = (vd, λ d. ground (arith, same d))
merged-Unites lists (a ∷ b ∷ more) v vs same = heap-Unites lists v

-- union_sorted_many of ascending lists is ascending, without repetition, and holds the ids that stand in
-- one of the lists and no other.
pub union_sorted_many_lem :
    (lists : List DocIds)
    → All IsAscending lists
    → IsAscending (union_sorted_many lists)
      × ((d : ℕ) → has d (union_sorted_many lists) ≡ any_has d lists)
unfolding union_sorted_many
union_sorted_many_lem lists v =
    merged-Unites lists (non_empty lists) v (non_empty-IsAscending lists v)
      (λ d. any_has-non_empty d lists)
