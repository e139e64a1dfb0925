-- ===== src/Format/Bsbf/Filter.antt =====
-- The words of a filter under the scalar kernels of core/src/format/bsbf.cpp.
use snii.Common.Bits.{bit_or-lt}
use snii.Common.{
  replicate, All, ◌-◌, ℕ, zero, suc, ◌+◌, ◌*◌, ◌/◌, ◌%◌, ◌^◌, ◌≤◌, ◌<◌, ◌≡◌, refl, ap, arith, true,
  List, [], ◌∷◌, length, get_or, set, bit_and, bit_or, ==_self,
}
use snii.Common.Digits.{pow_mono}
use snii.Format.Bsbf.{masks_scalar, find_masks, bsbf_block_index, insert_masks, BsbfBuilder}
use native.Mathlib.Nat.{mul-le-mul_right}
use snii.Common.Bits.Masks.{bit_and-bit_or_self, bit_and-bit_or_keep}

length-set : (xs : List ℕ) (i v : ℕ) → length (set xs i v) ≡ length xs
length-set [] i v = refl
length-set (x ∷ xs) zero v = refl
length-set (x ∷ xs) (suc i) v = ap suc (length-set xs i v)

-- A word has the bits of a mask.
abbrev HasBits : List ℕ → ℕ → ℕ → Type 0
HasBits words j m = bit_and (get_or words j 0) m ≡ m

abbrev or_at : List ℕ → ℕ → ℕ → List ℕ
or_at words at m = set words at (bit_or (get_or words at 0) m)

or_at-keeps :
    (words : List ℕ) (at m j mask : ℕ) → HasBits words j mask → HasBits (or_at words at m) j mask
or_at-keeps [] at m j mask h = h
or_at-keeps (x ∷ xs) zero m zero mask h = bit_and-bit_or_keep x m mask h
or_at-keeps (x ∷ xs) zero m (suc j) mask h = h
or_at-keeps (x ∷ xs) (suc at) m zero mask h = h
or_at-keeps (x ∷ xs) (suc at) m (suc j) mask h = or_at-keeps xs at m j mask h

or_at-sets : (words : List ℕ) (at m : ℕ) → at < length words → HasBits (or_at words at m) at m
or_at-sets [] at m h = absurd (omega arith)
or_at-sets (x ∷ xs) zero m h = bit_and-bit_or_self x m
or_at-sets (x ∷ xs) (suc at) m h = or_at-sets xs at m (omega arith)

-- Masks in the words from a position on.
abbrev pub HasAll : List ℕ → ℕ → List ℕ → Type 0
HasAll words at [] = Unit {0}
HasAll words at (m ∷ ms) = HasBits words at m × HasAll words (at + 1) ms

insert_masks-keeps :
    (ms words : List ℕ) (at j mask : ℕ)
    → HasBits words j mask
    → HasBits (insert_masks ms words at) j mask
unfolding insert_masks
insert_masks-keeps [] words at j mask h = h
insert_masks-keeps (m ∷ ms) words at j mask h =
    insert_masks-keeps ms _ (at + 1) j mask (or_at-keeps words at m j mask h)

pub insert_masks-keeps_all :
    (ms words : List ℕ) (at : ℕ) (masks : List ℕ) (j : ℕ)
    → HasAll words j masks
    → HasAll (insert_masks ms words at) j masks
insert_masks-keeps_all ms words at [] j h = tt
insert_masks-keeps_all ms words at (mask ∷ masks) j h = (
  insert_masks-keeps ms words at j mask h.0,
  insert_masks-keeps_all ms words at masks (j + 1) h.1,
)

pub insert_masks-sets :
    (ms words : List ℕ) (at : ℕ)
    → at + length ms ≤ length words
    → HasAll (insert_masks ms words at) at ms
unfolding insert_masks
insert_masks-sets [] words at h = tt
insert_masks-sets (m ∷ ms) words at h = (
  insert_masks-keeps ms _ (at + 1) at m (or_at-sets words at m (omega arith)),
  insert_masks-sets ms _ (at + 1)
      (omega (arith, h, length-set words at (bit_or (get_or words at 0) m))),
)

pub find_masks-HasAll :
    (ms words : List ℕ) (at : ℕ) → HasAll words at ms → find_masks ms words at ≡ true
unfolding find_masks
find_masks-HasAll [] words at h = refl
find_masks-HasAll (m ∷ ms) words at h =
    rw (h.0, ==_self m) (find_masks-HasAll ms words (at + 1) h.1)

pub length-insert_masks :
    (ms words : List ℕ) (at : ℕ) → length (insert_masks ms words at) ≡ length words
unfolding insert_masks
length-insert_masks [] words at = refl
length-insert_masks (m ∷ ms) words at = omega (
  arith,
  length-insert_masks ms (or_at words at m) (at + 1),
  length-set words at (bit_or (get_or words at 0) m),
)

abbrev pub IsWord : ℕ → Type 0
IsWord w = w < 2 ^ 32

set-IsWord : (xs : List ℕ) (i v : ℕ) → All IsWord xs → v < 2 ^ 32 → All IsWord (set xs i v)
set-IsWord [] i v h hv = tt
set-IsWord (x ∷ xs) zero v h hv = (hv, h.1)
set-IsWord (x ∷ xs) (suc i) v h hv = (h.0, set-IsWord xs i v h.1 hv)

pub get_or-IsWord : (xs : List ℕ) (i : ℕ) → All IsWord xs → get_or xs i 0 < 2 ^ 32
get_or-IsWord [] i h = omega arith
get_or-IsWord (x ∷ xs) zero h = h.0
get_or-IsWord (x ∷ xs) (suc i) h = get_or-IsWord xs i h.1

pub insert_masks-IsWord :
    (ms words : List ℕ) (at : ℕ)
    → All IsWord ms
    → All IsWord words
    → All IsWord (insert_masks ms words at)
unfolding insert_masks
insert_masks-IsWord [] words at hm h = h
insert_masks-IsWord (m ∷ ms) words at hm h =
    insert_masks-IsWord ms _ (at + 1) hm.1
      (set-IsWord words at _ h (bit_or-lt 32 (get_or words at 0) m (get_or-IsWord words at h) hm.0))

pub replicate-IsWord : (n : ℕ) → All IsWord (replicate n 0)
replicate-IsWord zero = tt
replicate-IsWord (suc n) = (omega arith, replicate-IsWord n)

mask-IsWord : (key salt : ℕ) → IsWord (2 ^ (key * salt % 2 ^ 32 / 2 ^ 27))
mask-IsWord key salt = omega (arith, pow_mono (key * salt % 2 ^ 32 / 2 ^ 27) 31 top)
  where
    top : key * salt % 2 ^ 32 / 2 ^ 27 ≤ 31
    top = omega arith

pub masks_scalar-IsWord : (key : ℕ) → All IsWord (masks_scalar key)
unfolding masks_scalar
masks_scalar-IsWord key =
    let m = mask-IsWord key in (m _, (m _, (m _, (m _, (m _, (m _, (m _, (m _, tt))))))))

-- Blocks of eight words, as many as the hash can select.
pub record IsBuilt (b : BsbfBuilder) : Type 0 where
  pub sized : length b.words ≡ 8 * b.num_blocks
  pub some_blocks : 1 ≤ b.num_blocks
  pub fits : b.num_blocks < 2 ^ 32
  pub words32 : All IsWord b.words

-- The block of a 64-bit hash is one of the blocks.
pub bsbf_block_index_lem :
    (hash num_blocks : ℕ)
    → hash < 2 ^ 64
    → 1 ≤ num_blocks
    → num_blocks < 2 ^ 32
    → bsbf_block_index hash num_blocks < num_blocks
unfolding bsbf_block_index
bsbf_block_index_lem hash num_blocks h low fits = omega (arith, mul-le-mul_right num_blocks upper)
  where
    upper : hash / 2 ^ 32 ≤ 2 ^ 32 - 1
    upper = omega arith
