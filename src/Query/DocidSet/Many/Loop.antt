-- ===== src/Query/DocidSet/Many/Loop.antt =====
-- The loop of union_sorted_many (core/src/query/docid_set_ops.cpp).
use snii.Common.{
  ℕ, zero, suc, ◌+◌, ◌≤◌, ◌≡◌, refl, arith, List, [], ◌∷◌, Option, none, some, true, not, ltb, ◌==◌,
  ◌&&◌, ◌||◌, length, get_or, drop, All, if◌then◌else◌, Bool-cases, inl, inr,
}
use snii.Query.DocidSet.{DocIds}
use snii.Query.DocidSet.Ascending.{has, Above, IsAscending, has→Above}
use snii.Query.DocidSet.Many.{Cursor, take_top, push_next, is_new, merge_loop}
use snii.Query.DocidSet.Many.Heap.{
  drop_split, drop_none, behind, IsGood, heap_has, heap_size, heap_has-AtLeast, IsTop,
  take_top-IsTop,
}

module _ (lists : List DocIds) where
  -- Pushing the next id of a list keeps what the list has behind the cursor.
  record Pushed (cur : Cursor) (heap pushed : List Cursor) : Type 0 where
    has_behind :
        (d : ℕ) → heap_has lists d pushed ≡ (has d (behind lists cur) || heap_has lists d heap)
    size_behind : heap_size lists pushed ≡ length (behind lists cur) + heap_size lists heap
    good : IsGood lists cur → All (IsGood lists) heap → All (IsGood lists) pushed

  push_next-Pushed :
      (cur : Cursor) (heap : List Cursor) → Pushed cur heap (push_next lists cur heap)
  unfolding push_next heap_has heap_size
  push_next-Pushed cur heap =
      elim (Bool-cases (ltb (cur.offset + 1) (length (get_or lists cur.list [])))) [
        | inl more ↦
            let e = drop_split (cur.offset + 1) (get_or lists cur.list []) (ground arith) in
            rw more (record {
              has_behind = λ d. rw e refl;
              size_behind = rw e (omega arith);
              good = λ g gs. (
                let kept : IsAscending (
                        get_or (get_or lists cur.list []) (cur.offset + 1) 0
                        ∷ drop (cur.offset + 1 + 1) (get_or lists cur.list [])) =
                      rw e at g.1 in
                    kept,
                gs,
              );
            })
        | inr done ↦
            let e = drop_none (cur.offset + 1) (get_or lists cur.list []) (ground arith) in
            rw done (record {
              has_behind = λ d. rw e refl;
              size_behind = rw e (omega arith);
              good = λ g gs. gs;
            })
      ]

  -- What is left is not below what was pushed back last.
  abbrev pub Bound : Option ℕ → List Cursor → Type 0
  Bound none heap = Unit {0}
  Bound (some l) heap = (d : ℕ) → heap_has lists d heap ≡ true → l ≤ d

  abbrev pub Merges : Option ℕ → List Cursor → DocIds → Type 0
  Merges last heap out =
      ((d : ℕ) → has d out ≡ (heap_has lists d heap && is_new last d)) × IsAscending out

  module _ (heap others : List Cursor) (cur : Cursor) (top : IsTop lists heap cur others)
      (g : All (IsGood lists) heap) where
    heap_splits :
        (d : ℕ)
        → heap_has lists d heap
          ≡ (((d == cur.docid) || has d (behind lists cur)) || heap_has lists d others)
    heap_splits d = let e = top.same_has d in unfold heap_has in e

    above_cur : (d : ℕ) → heap_has lists d heap ≡ true → cur.docid ≤ d
    above_cur d h = heap_has-AtLeast lists d cur.docid heap g top.least h

    Bound-pushed : Bound (some cur.docid) (push_next lists cur others)
    Bound-pushed d h =
        ground (arith, (push_next-Pushed cur others).has_behind d, heap_splits d, above_cur d)

    size_pushed :
        (n : ℕ) → heap_size lists heap ≤ suc n → heap_size lists (push_next lists cur others) ≤ n
    size_pushed n h =
        let e = top.same_size in
        let e' : heap_size lists heap ≡ suc (length (behind lists cur)) + heap_size lists others =
          unfold heap_size in e in
        omega (arith, (push_next-Pushed cur others).size_behind, e')

    module _ (rest : DocIds)
        (merged : Merges (some cur.docid) (push_next lists cur others) rest) where
      rest_has :
          (d : ℕ)
          → has d rest
            ≡ ((has d (behind lists cur) || heap_has lists d others) && not (d == cur.docid))
      unfolding is_new
      rest_has d = let e = merged.0 d in rw (push_next-Pushed cur others).has_behind at e

      Above-rest : Above cur.docid rest
      Above-rest =
          has→Above cur.docid rest λ d h. ground (arith, rest_has d, heap_splits d, above_cur d)

      merge_step :
          (last : Option ℕ)
          → Bound last heap
          → Merges last heap (if is_new last cur.docid then cur.docid ∷ rest else rest)
      unfolding is_new
      merge_step none b = (λ d. ground (arith, rest_has d, heap_splits d), (Above-rest, merged.1))
      merge_step (some l) b = elim (Bool-cases (cur.docid == l)) [
        | inl again ↦ rw again (λ d. ground (arith, rest_has d, heap_splits d), merged.1)
        | inr fresh ↦ rw fresh (
          λ d. ground (
            arith,
            rest_has d,
            heap_splits d,
            above_cur d,
            b d,
            b cur.docid,
            heap_splits cur.docid,
          ),
          (Above-rest, merged.1),
        )
      ]

  -- With a round for every id that is left, the loop empties the heap: it answers the ids of the heap in
  -- ascending order, but not again the one pushed back last.
  pub merge_loop-Merges :
      (rounds : ℕ) (heap : List Cursor) (last : Option ℕ)
      → All (IsGood lists) heap
      → heap_size lists heap ≤ rounds
      → Bound last heap
      → Merges last heap (merge_loop rounds lists heap last)
  unfolding merge_loop
  merge_loop-Merges zero [] last g h b = (λ d. unfold heap_has in refl, tt)
  merge_loop-Merges (suc rounds) [] last g h b = (λ d. unfold heap_has in refl, tt)
  merge_loop-Merges zero (c ∷ heap) last g h b = unfold heap_size in absurd (omega arith)
  merge_loop-Merges (suc rounds) (c ∷ heap) last g h b =
      let top = take_top-IsTop lists c heap in
      merge_step (c ∷ heap) (take_top c heap).1 (take_top c heap).0 top g _
        (merge_loop-Merges rounds (push_next lists (take_top c heap).0 (take_top c heap).1)
          (some (take_top c heap).0.docid)
          ((push_next-Pushed (take_top c heap).0 (take_top c heap).1).good (top.good g).0
            (top.good g).1)
          (size_pushed (c ∷ heap) (take_top c heap).1 (take_top c heap).0 top g rounds h)
          (Bound-pushed (c ∷ heap) (take_top c heap).1 (take_top c heap).0 top g))
        last b
