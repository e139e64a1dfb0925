-- ===== src/Query/DocidSet/Many/Heap.antt =====
-- The heap of union_sorted_many (core/src/query/docid_set_ops.cpp).
use snii.Common.{
  ℕ, zero, suc, ◌+◌, ◌<◌, ◌≤◌, ◌≡◌, refl, arith, List, [], ◌∷◌, Bool, true, false, ltb, ◌||◌,
  length, get_or, drop, All, Bool-cases, inl, inr,
}
use snii.Query.DocidSet.{DocIds}
use snii.Query.DocidSet.Ascending.{has, IsAscending, Above-has}
use snii.Query.DocidSet.Many.{Cursor, take_top}

pub drop_split : (n : ℕ) (l : DocIds) → n < length l → drop n l ≡ get_or l n 0 ∷ drop (n + 1) l
drop_split n [] h = absurd (omega arith)
drop_split zero (x ∷ l) h = refl
drop_split (suc n) (x ∷ l) h = let e = drop_split n l (omega arith) in ground (arith, e)

pub drop_none : (n : ℕ) (l : DocIds) → length l ≤ n → drop n l ≡ []
drop_none zero [] h = refl
drop_none (suc n) [] h = refl
drop_none zero (x ∷ l) h = absurd (omega arith)
drop_none (suc n) (x ∷ l) h = drop_none n l (omega arith)

module _ (lists : List DocIds) where
  -- What the list of a cursor has behind it.
  abbrev pub behind : Cursor → DocIds
  behind c = drop (c.offset + 1) (get_or lists c.list [])

  abbrev pub IsGood : Cursor → Type 0
  IsGood c = IsAscending (c.docid ∷ behind c)

  unfoldable pub heap_has : ℕ → List Cursor → Bool
  heap_has d [] = false
  heap_has d (c ∷ heap) = has d (c.docid ∷ behind c) || heap_has d heap

  unfoldable pub heap_size : List Cursor → ℕ
  heap_size [] = 0
  heap_size (c ∷ heap) = suc (length (behind c)) + heap_size heap

  abbrev pub AtLeast : ℕ → List Cursor → Type 0
  AtLeast m heap = All (λ c. m ≤ c.docid) heap

  pub heap_has-AtLeast :
      (d m : ℕ) (heap : List Cursor)
      → All IsGood heap
      → AtLeast m heap
      → heap_has d heap ≡ true
      → m ≤ d
  unfolding heap_has
  heap_has-AtLeast d m [] g a h = absurd cc
  heap_has-AtLeast d m (c ∷ heap) ((ca, cs), g) (l, a) h =
      ground (arith, heap_has-AtLeast d m heap g a, Above-has c.docid d (behind c) ca)

  -- The top of a heap and the other cursors.
  pub record IsTop (heap : List Cursor) (top : Cursor) (others : List Cursor) : Type 0 where
    pub same_has : (d : ℕ) → heap_has d heap ≡ heap_has d (top ∷ others)
    pub same_size : heap_size heap ≡ heap_size (top ∷ others)
    pub good : All IsGood heap → All IsGood (top ∷ others)
    pub least : AtLeast top.docid heap
    pub least_other : AtLeast top.docid others

  AtLeast-AtLeast : (m n : ℕ) (heap : List Cursor) → n ≤ m → AtLeast m heap → AtLeast n heap
  AtLeast-AtLeast m n [] h a = tt
  AtLeast-AtLeast m n (c ∷ heap) h (l, a) = (omega arith, AtLeast-AtLeast m n heap h a)

  pub take_top-IsTop :
      (c : Cursor) (heap : List Cursor) → IsTop (c ∷ heap) (take_top c heap).0 (take_top c heap).1
  unfolding take_top heap_has heap_size
  take_top-IsTop c [] = record {
    same_has = λ d. refl;
    same_size = refl;
    good = λ g. g;
    least = (omega arith, tt);
    least_other = tt;
  }
  take_top-IsTop c (c' ∷ heap) =
      let t = take_top-IsTop c' heap in
      elim (Bool-cases (ltb (take_top c' heap).0.docid c.docid)) [
        | inl below ↦ rw below (record {
          same_has = λ d. ground (arith, t.same_has d);
          same_size = omega (arith, t.same_size);
          good = λ g. let rest = t.good g.1 in (rest.0, (g.0, rest.1));
          least = (ground arith, t.least);
          least_other = (ground arith, t.least_other);
        })
        | inr above ↦ rw above (record {
          same_has = λ d. refl;
          same_size = refl;
          good = λ g. g;
          least = (
            omega arith,
            AtLeast-AtLeast (take_top c' heap).0.docid c.docid (c' ∷ heap) (ground arith) t.least,
          );
          least_other =
              AtLeast-AtLeast (take_top c' heap).0.docid c.docid (c' ∷ heap) (ground arith) t.least;
        })
      ]
