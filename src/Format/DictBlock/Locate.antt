-- ===== src/Format/DictBlock/Locate.antt =====
-- DictBlockReader::locate_anchor of core/src/format/dict_block.cpp.
use snii.Format.DictBlock.Reader.{locate_loop, locate_anchor}
use snii.Format.SampledIndex.{Term}
use snii.Common.{
  ℕ, zero, suc, ◌+◌, ◌-◌, ◌/◌, ◌≤◌, ◌<◌, ◌≡◌, ◌⊎◌, inl, inr, refl, arith, true, false, List, [],
  ◌∷◌, length, get_or, ltb, ltb→lt, bytes_lt, none, some, Bool-cases,
}

-- The anchor whose segment may hold the target: its term is not above it, and the next one's is.
pub record IsAnchorOf (terms : List Term) (target : Term) (i : ℕ) : Type 0 where
  pub within : i < length terms
  pub not_above : bytes_lt target (get_or terms i []) ≡ false
  pub next_above : (i + 1 ≡ length terms) ⊎ (bytes_lt target (get_or terms (i + 1) []) ≡ true)

module _ (terms : List Term) (target : Term) where
  -- What the loop keeps of its bounds.
  record Between (lo hi : ℕ) : Type 0 where
    order : lo < hi
    within : hi ≤ length terms
    not_above : bytes_lt target (get_or terms lo []) ≡ false
    above : (hi ≡ length terms) ⊎ (bytes_lt target (get_or terms hi []) ≡ true)

  locate_loop_lem :
      (rounds lo hi : ℕ)
      → hi ≤ lo + rounds
      → Between lo hi
      → IsAnchorOf terms target (locate_loop rounds terms target lo hi)
  unfolding locate_loop
  locate_loop_lem zero lo hi few b = absurd (omega (arith, b.order, few))
  locate_loop_lem (suc rounds) lo hi few b = elim (Bool-cases (ltb (lo + 1) hi)) [
    | inl more ↦ elim (Bool-cases (bytes_lt target (get_or terms (lo + (hi - lo) / 2) []))) [
      | inl lower ↦
          rw (more, lower)
            (locate_loop_lem rounds lo (lo + (hi - lo) / 2) (omega (arith, few, ltb→lt _ _ more))
              (record {
                order = omega (arith, ltb→lt _ _ more);
                within = omega (arith, b.within, ltb→lt _ _ more);
                not_above = b.not_above;
                above = inr lower;
              }))
      | inr upper ↦
          rw (more, upper)
            (locate_loop_lem rounds (lo + (hi - lo) / 2) hi (omega (arith, few, ltb→lt _ _ more))
              (record {
                order = omega (arith, ltb→lt _ _ more);
                within = b.within;
                not_above = upper;
                above = b.above;
              }))
    ]
    | inr last ↦
        let next : hi ≡ lo + 1 = ground (arith, last, b.order) in
        rw last (record {
          within = omega (arith, b.order, b.within);
          not_above = b.not_above;
          next_above = rw (← next) b.above;
        })
  ]

-- Where locate_anchor reports no anchor, there is none or the target is below the first term; else its
-- search ends within the rounds, at an anchor whose term is not above the target while the next one's
-- is, if there is a next one.
pub locate_anchor_lem :
    (terms : List Term) (target : Term)
    → ((locate_anchor terms target ≡ none)
        × ((terms ≡ []) ⊎ (bytes_lt target (get_or terms 0 []) ≡ true)))
      ⊎ ((i : ℕ) × (locate_anchor terms target ≡ some i) × IsAnchorOf terms target i)
unfolding locate_anchor
locate_anchor_lem [] target = inl (refl, inl refl)
locate_anchor_lem (t ∷ ts) target = elim (Bool-cases (bytes_lt target t)) [
  | inl below ↦ rw below (inl (refl, inr refl))
  | inr low ↦ rw low (
      inr (
        _,
        refl,
        locate_loop_lem (t ∷ ts) target (length (t ∷ ts)) 0 (length (t ∷ ts)) (omega arith)
            (record {
              order = omega arith;
              within = omega arith;
              not_above = low;
              above = inl refl;
            }),
      ))
]
