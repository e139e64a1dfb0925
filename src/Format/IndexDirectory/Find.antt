-- ===== src/Format/IndexDirectory/Find.antt =====
-- LogicalIndexDirectoryReader::find of core/src/format/logical_index_directory.cpp.
use snii.Common.{
  Bool, ℕ, ◌≡◌, ◌⊎◌, refl, ap, arith, List, [], ◌∷◌, ◌++◌, some, none, Bool-cases, inl, inr,
  bytes_eq, bytes_eq→eq, bytes_eq_self, ◌==◌, ◌&&◌, true, false, All,
}
use snii.Format.IndexDirectory.{LogicalIndexRef, Reader, find_loop, find}

-- `ref` stands under the key (index_id, suffix).
abbrev pub HasKey : ℕ → List ℕ → LogicalIndexRef → Type 0
HasKey index_id suffix ref = (ref.index_id ≡ index_id) × (ref.index_suffix ≡ suffix)

-- `ref` is the first entry of `refs` under the key.
pub record IsFirst (index_id : ℕ) (suffix : List ℕ) (refs : List LogicalIndexRef)
    (ref : LogicalIndexRef) : Type 0 where
  pub before : List LogicalIndexRef
  pub after : List LogicalIndexRef
  pub split : refs ≡ before ++ (ref ∷ after)
  pub key : HasKey index_id suffix ref
  pub none_before : All (λ other. ¬ HasKey index_id suffix other) before

module _ (index_id : ℕ) (suffix : List ℕ) where
  test : LogicalIndexRef → Bool
  test ref = (ref.index_id == index_id) && bytes_eq ref.index_suffix suffix

  test_passes : (ref : LogicalIndexRef) → test ref ≡ true → HasKey index_id suffix ref
  unfolding test
  test_passes ref h = ground (arith, bytes_eq→eq ref.index_suffix suffix)

  test_fails : (ref : LogicalIndexRef) → test ref ≡ false → ¬ HasKey index_id suffix ref
  unfolding test
  test_fails ref h k = ground (arith, bytes_eq_self suffix)

  find_loop_lem :
      (refs : List LogicalIndexRef)
      → ((find_loop refs index_id suffix ≡ none)
          × All (λ other. ¬ HasKey index_id suffix other) refs)
        ⊎ ((ref : LogicalIndexRef) × (find_loop refs index_id suffix ≡ some ref)
            × IsFirst index_id suffix refs ref)
  unfolding find_loop
  find_loop_lem [] = inl (refl, tt)
  find_loop_lem (ref ∷ refs) = elim (Bool-cases (test ref)) [
    | inl hit ↦ inr (
      ref,
      unfold test in rw hit,
      record {
        before = [];
        after = refs;
        split = refl;
        key = test_passes ref hit;
        none_before = tt;
      },
    )
    | inr miss ↦ elim (find_loop_lem refs) [
      | inl (e, all) ↦ inl (unfold test in rw (miss) e, (test_fails ref miss, all))
      | inr (found, e, first) ↦ inr (
        found,
        unfold test in rw (miss) e,
        record {
          before = ref ∷ first.before;
          after = first.after;
          split = ap (λ t. ref ∷ t) first.split;
          key = first.key;
          none_before = (test_fails ref miss, first.none_before);
        },
      )
    ]
  ]

-- Either find reports that there is no entry and none stands under the key, or it returns the first
-- entry under the key.
pub find_lem :
    (r : Reader) (index_id : ℕ) (suffix : List ℕ)
    → ((find r index_id suffix ≡ none) × All (λ other. ¬ HasKey index_id suffix other) r.refs)
      ⊎ ((ref : LogicalIndexRef) × (find r index_id suffix ≡ some ref)
          × IsFirst index_id suffix r.refs ref)
unfolding find
find_lem r index_id suffix = find_loop_lem index_id suffix r.refs
