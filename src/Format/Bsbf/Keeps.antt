-- ===== src/Format/Bsbf/Keeps.antt =====
-- BsbfBuilder::insert and BsbfBuilder::maybe_contains of core/src/format/bsbf.cpp.
use snii.Format.Bsbf.Filter.{
  masks_scalar-IsWord, insert_masks-IsWord, bsbf_block_index_lem, insert_masks-keeps_all,
  insert_masks-sets, length-insert_masks, HasAll, find_masks-HasAll, IsBuilt,
}
use snii.Format.Bsbf.{
  first_word, bsbf_block_index, find_scalar, insert_scalar, BsbfBuilder, insert, masks_scalar,
  maybe_contains,
}
use snii.Common.{ℕ, ◌%◌, ◌^◌, ◌<◌, ◌≡◌, refl, arith, true, List, [], ◌∷◌, length}

-- The 64-bit hashes, inserted in order.
abbrev pub insert_all : List ℕ → BsbfBuilder → BsbfBuilder
insert_all [] b = b
insert_all (hash ∷ hashes) b = insert_all hashes (insert b hash)

abbrev Holds : BsbfBuilder → ℕ → Type 0
Holds b hash =
    HasAll b.words (first_word (bsbf_block_index hash b.num_blocks)) (masks_scalar (hash % 2 ^ 32))

-- Inserting a hash leaves as many blocks as there were.
pub insert-IsBuilt : (b : BsbfBuilder) (hash : ℕ) → IsBuilt b → IsBuilt (insert b hash)
unfolding insert insert_scalar
insert-IsBuilt b hash v = record {
  sized = omega (
    arith,
    v.sized,
    length-insert_masks (masks_scalar (hash % 2 ^ 32)) b.words
        (first_word (bsbf_block_index hash b.num_blocks)),
  );
  some_blocks = v.some_blocks;
  fits = v.fits;
  words32 = insert_masks-IsWord _ b.words _ (masks_scalar-IsWord _) v.words32;
}

pub length-masks_scalar : (key : ℕ) → length (masks_scalar key) ≡ 8
unfolding masks_scalar
length-masks_scalar key = refl

insert-Holds : (b : BsbfBuilder) (hash : ℕ) → IsBuilt b → hash < 2 ^ 64 → Holds (insert b hash) hash
unfolding insert insert_scalar
insert-Holds b hash v h =
    insert_masks-sets (masks_scalar (hash % 2 ^ 32)) b.words
      (first_word (bsbf_block_index hash b.num_blocks))
      (omega (
        arith,
        v.sized,
        bsbf_block_index_lem hash b.num_blocks h v.some_blocks v.fits,
        length-masks_scalar (hash % 2 ^ 32),
      ))

insert-keeps_Holds : (b : BsbfBuilder) (other hash : ℕ) → Holds b hash → Holds (insert b other) hash
unfolding insert insert_scalar
insert-keeps_Holds b other hash h =
    insert_masks-keeps_all (masks_scalar (other % 2 ^ 32)) b.words
      (first_word (bsbf_block_index other b.num_blocks)) _ _ h

insert_all-keeps_Holds :
    (later : List ℕ) (b : BsbfBuilder) (hash : ℕ) → Holds b hash → Holds (insert_all later b) hash
insert_all-keeps_Holds [] b hash h = h
insert_all-keeps_Holds (x ∷ later) b hash h =
    insert_all-keeps_Holds later (insert b x) hash (insert-keeps_Holds b x hash h)

Holds-maybe_contains : (b : BsbfBuilder) (hash : ℕ) → Holds b hash → maybe_contains b hash ≡ true
unfolding maybe_contains find_scalar
Holds-maybe_contains b hash h = find_masks-HasAll _ _ _ h

-- A filter of 1 to 2 ^ 32 - 1 blocks of eight 32-bit words never denies a 64-bit hash that was inserted,
-- whatever is inserted after it.
pub maybe_contains-insert :
    (b : BsbfBuilder) (hash : ℕ) (later : List ℕ)
    → IsBuilt b
    → hash < 2 ^ 64
    → maybe_contains (insert_all later (insert b hash)) hash ≡ true
maybe_contains-insert b hash later v h =
    Holds-maybe_contains _ hash
      (insert_all-keeps_Holds later (insert b hash) hash (insert-Holds b hash v h))
