-- ===== src/Query/DocidSet/Many.antt =====
-- union_sorted_many of core/src/query/docid_set_ops.cpp
pub mod Heap
pub mod Loop
pub mod Union
use snii.Common.{
  ℕ, zero, suc, ◌+◌, List, [], ◌∷◌, Option, none, some, Bool, true, not, ltb, ◌==◌, length, get_or,
  if◌then◌else◌,
}
use snii.Query.DocidSet.{DocIds}

pub record Cursor : Type 0 where
  pub docid : ℕ
  pub list : ℕ
  pub offset : ℕ

-- The priority queue is the list of its cursors; its top is one of least docid.
unfoldable pub take_top : Cursor → List Cursor → Cursor × List Cursor
take_top c [] = (c, [])
take_top c (c' ∷ heap) =
    let r = take_top c' heap in if ltb r.0.docid c.docid then (r.0, c ∷ r.1) else (c, c' ∷ heap)

-- The loop that fills the heap, from list `i` on.
unfoldable pub fill_heap : List DocIds → ℕ → List Cursor
fill_heap [] i = []
fill_heap ([] ∷ lists) i = fill_heap lists (i + 1)
fill_heap ((d ∷ docs) ∷ lists) i =
    record { docid = d; list = i; offset = 0 } ∷ fill_heap lists (i + 1)

-- The cursor behind `cur`, if its list goes on.
unfoldable pub push_next : List DocIds → Cursor → List Cursor → List Cursor
push_next lists cur heap =
    let docs = get_or lists cur.list [] in
    if ltb (cur.offset + 1) (length docs)
    then record { docid = get_or docs (cur.offset + 1) 0; list = cur.list; offset = cur.offset + 1 }
      ∷ heap
    else heap

-- `has_last` and `last`: what was pushed back last.
unfoldable pub is_new : Option ℕ → ℕ → Bool
is_new none docid = true
is_new (some last) docid = not (docid == last)

-- `while (!heap.empty())`: a round takes one id off a list.
unfoldable pub merge_loop : ℕ → List DocIds → List Cursor → Option ℕ → DocIds
merge_loop zero lists heap last = []
merge_loop (suc rounds) lists [] last = []
merge_loop (suc rounds) lists (c ∷ heap) last =
    let r = take_top c heap in
    let rest = merge_loop rounds lists (push_next lists r.0 r.1) (some r.0.docid) in
    if is_new last r.0.docid then r.0.docid ∷ rest else rest

unfoldable pub total : List DocIds → ℕ
total [] = 0
total (docs ∷ lists) = length docs + total lists

-- The lists that are not empty; one alone is the answer.
unfoldable pub non_empty : List DocIds → List DocIds
non_empty [] = []
non_empty ([] ∷ lists) = non_empty lists
non_empty ((d ∷ docs) ∷ lists) = (d ∷ docs) ∷ non_empty lists

unfoldable pub merged : List DocIds → List DocIds → DocIds
merged lists [] = []
merged lists (docs ∷ []) = docs
merged lists (a ∷ b ∷ more) = merge_loop (total lists) lists (fill_heap lists 0) none

unfoldable pub union_sorted_many : List DocIds → DocIds
union_sorted_many lists = merged lists (non_empty lists)
