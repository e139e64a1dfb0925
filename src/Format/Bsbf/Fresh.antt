-- ===== src/Format/Bsbf/Fresh.antt =====
-- The blocks of a filter that BsbfBuilder::insert of core/src/format/bsbf.cpp does not select.
use native.Mathlib.Decide.{dec_lt}
use snii.Common.Digits.{pow_mono}
use native.Mathlib.Nat.{one-le-pow}
use snii.Common.Bits.{bit_and_bit}
use snii.Common.{
  ℕ, zero, suc, ◌+◌, ◌*◌, ◌/◌, ◌%◌, ◌^◌, ◌≤◌, ◌<◌, ◌≡◌, ◌≢◌, ◌⊎◌, inl, inr, refl, ap, arith, false,
  List, [], ◌∷◌, length, get_or, set, replicate, All, bit_or, ◌==◌,
}
use snii.Format.Bsbf.Keeps.{insert_all, length-masks_scalar}
use snii.Format.Bsbf.Filter.{bsbf_block_index_lem, IsBuilt}
use snii.Format.Bsbf.Sizes.{IsSize, size-IsBuilt}
use snii.Format.Bsbf.{
  BsbfBuilder, insert, maybe_contains, create_sized, insert_scalar, find_scalar, insert_masks,
  find_masks, masks_scalar, bsbf_block_index, first_word,
}

get_or-set_other : (xs : List ℕ) (i j v : ℕ) → i ≢ j → get_or (set xs i v) j 0 ≡ get_or xs j 0
get_or-set_other [] i j v h = refl
get_or-set_other (x ∷ xs) zero zero v h = absurd (h refl)
get_or-set_other (x ∷ xs) zero (suc j) v h = refl
get_or-set_other (x ∷ xs) (suc i) zero v h = refl
get_or-set_other (x ∷ xs) (suc i) (suc j) v h = get_or-set_other xs i j v λ e. h (ap suc e)

-- A position outside the words that are masked.
abbrev IsOutside : ℕ → ℕ → ℕ → Type 0
IsOutside at n j = (j < at) ⊎ (at + n ≤ j)

insert_masks-outside :
    (ms words : List ℕ) (at j : ℕ)
    → IsOutside at (length ms) j
    → get_or (insert_masks ms words at) j 0 ≡ get_or words j 0
unfolding insert_masks
insert_masks-outside [] words at j h = refl
insert_masks-outside (m ∷ ms) words at j h =
    rw
      (insert_masks-outside ms (set words at (bit_or (get_or words at 0) m)) (at + 1) j
        (ground arith))
      (get_or-set_other words at j _ (ground arith))

get_or-replicate : (n j : ℕ) → get_or (replicate {A = ℕ} n 0) j 0 ≡ 0
get_or-replicate zero j = refl
get_or-replicate (suc n) zero = refl
get_or-replicate (suc n) (suc j) = get_or-replicate n j

-- A word of 0 has not the bit of a mask.
find_masks-clear :
    (k : ℕ) (ms words : List ℕ) (at : ℕ)
    → get_or words at 0 ≡ 0
    → find_masks (2 ^ k ∷ ms) words at ≡ false
unfolding find_masks
find_masks-clear k ms words at h = rw (h, bit_and_bit k 0, no_bit) refl
  where
    no_bit : (0 / 2 ^ k % 2 * 2 ^ k == 2 ^ k) ≡ false
    no_bit = ground (arith, one-le-pow k 2)

-- The first word of a hash's block is 0.
abbrev IsClear : BsbfBuilder → ℕ → Type 0
IsClear b hash = get_or b.words (first_word (bsbf_block_index hash b.num_blocks)) 0 ≡ 0

-- Another 64-bit hash, with another block.
abbrev pub IsElsewhere : ℕ → ℕ → ℕ → Type 0
IsElsewhere num_blocks hash other =
    (other < 2 ^ 64) × (bsbf_block_index other num_blocks ≢ bsbf_block_index hash num_blocks)

-- Blocks that a uint32 can index by their words.
record HasBlocks (num_blocks : ℕ) : Type 0 where
  some_blocks : 1 ≤ num_blocks
  few : num_blocks ≤ 2 ^ 29

module _ (hash : ℕ) (h : hash < 2 ^ 64) where
  insert-IsClear :
      (b : BsbfBuilder) (other : ℕ)
      → HasBlocks b.num_blocks
      → IsElsewhere b.num_blocks hash other
      → IsClear b hash
      → IsClear (insert b other) hash
  unfolding insert insert_scalar
  insert-IsClear b other v (fits, differs) clear =
      rw
        (insert_masks-outside (masks_scalar (other % 2 ^ 32)) b.words
          (first_word (bsbf_block_index other b.num_blocks))
          (first_word (bsbf_block_index hash b.num_blocks)) apart)
        clear
    where
      mine : bsbf_block_index hash b.num_blocks < b.num_blocks
      mine = bsbf_block_index_lem hash b.num_blocks h v.some_blocks (omega (arith, v.few))

      theirs : bsbf_block_index other b.num_blocks < b.num_blocks
      theirs = bsbf_block_index_lem other b.num_blocks fits v.some_blocks (omega (arith, v.few))

      apart :
          IsOutside
            (first_word (bsbf_block_index other b.num_blocks))
            (length (masks_scalar (other % 2 ^ 32)))
            (first_word (bsbf_block_index hash b.num_blocks))
      apart =
          elim (dec_lt (bsbf_block_index hash b.num_blocks) (bsbf_block_index other b.num_blocks)) [
            | yes l ↦ inl (omega (arith, mine, theirs, v.few))
            | no n ↦
                inr (
                  omega (arith, mine, theirs, v.few, length-masks_scalar (other % 2 ^ 32), differs))
          ]

  IsClear-maybe_contains : (b : BsbfBuilder) → IsClear b hash → maybe_contains b hash ≡ false
  unfolding maybe_contains find_scalar masks_scalar
  IsClear-maybe_contains b clear = find_masks-clear _ _ b.words _ clear

  denies_all :
      (hashes : List ℕ) (b : BsbfBuilder)
      → HasBlocks b.num_blocks
      → All (IsElsewhere b.num_blocks hash) hashes
      → IsClear b hash
      → maybe_contains (insert_all hashes b) hash ≡ false
  denies_all [] b v others clear = IsClear-maybe_contains b clear
  denies_all (other ∷ hashes) b v others clear =
      denies_all hashes (insert b other) (unfold insert in v) (unfold insert in others.1)
        (insert-IsClear b other v others.0 clear)

-- A filter of a power of two of bytes from 32 bytes to 128 MiB, as create leaves it, denies a 64-bit hash
-- after any 64-bit hashes were inserted, none of them in the hash's block.
pub maybe_contains-create_sized :
    (ndv n hash : ℕ) (hashes : List ℕ)
    → IsSize n
    → hash < 2 ^ 64
    → All (IsElsewhere (n / 32) hash) hashes
    → maybe_contains (insert_all hashes (create_sized ndv n)) hash ≡ false
unfolding create_sized
maybe_contains-create_sized ndv n hash hashes v h others =
    denies_all hash h hashes (create_sized ndv n) blocks others (get_or-replicate (n / 4) _)
  where
    built : IsBuilt (create_sized ndv n)
    built = size-IsBuilt ndv n v

    blocks : HasBlocks (n / 32)
    blocks = record {
      some_blocks = built.some_blocks;
      few = omega (arith, v.is_power, pow_mono v.exponent 27 v.high);
    }
