-- ===== src/Format/Bsbf.antt =====
-- core/include/snii/format/bsbf.h, core/src/format/bsbf.cpp: the block-split bloom filter, with the
-- scalar kernels. The hash of a term (XXH64) is a number below 2 ^ 64 that callers pass in.
pub mod Sizing
pub mod Header
pub mod Filter
pub mod Keeps
pub mod Powers
pub mod Sizes
pub mod RoundTrip
pub mod Words
pub mod Probe
pub mod Fresh
mod Tests
use snii.Common.{
  ℕ, ◌+◌, ◌*◌, ◌/◌, ◌%◌, ◌^◌, Bool, true, false, List, [], ◌∷◌, map, drop, get_or, set, replicate,
  bit_and, bit_or, ◌==◌, if◌then◌else◌,
}

-- kBsbfSalt
abbrev salt : List ℕ
salt =
    0x47b6137b ∷ 0x44974d91 ∷ 0x8824ad5b ∷ 0xa2b7289d ∷ 0x705495c7 ∷ 0x2df1424b ∷ 0x9efc4947
    ∷ 0x5c6bfb31 ∷ []

abbrev pub bytes_per_block : ℕ
bytes_per_block = 32

-- `((hash >> 32) * num_blocks) >> 32`, cut to 32 bits
unfoldable pub bsbf_block_index : ℕ → ℕ → ℕ
bsbf_block_index hash num_blocks = ((hash / 2 ^ 32) * num_blocks) % 2 ^ 64 / 2 ^ 32 % 2 ^ 32

-- m[0], ..., m[7]; the 32-bit shift of 1 is by less than 32.
unfoldable pub masks_scalar : ℕ → List ℕ
masks_scalar key = map (λ (s : ℕ). 2 ^ (key * s % 2 ^ 32 / 2 ^ 27)) salt

unfoldable pub load_le32 : List ℕ → ℕ
load_le32 p =
    bit_or (bit_or (bit_or (get_or p 0 0) (get_or p 1 0 * 2 ^ 8)) (get_or p 2 0 * 2 ^ 16))
      (get_or p 3 0 * 2 ^ 24)

-- The loop of block_contains_scalar, the word at the front of the bytes.
unfoldable pub block_loop : List ℕ → List ℕ → Bool
block_loop [] block = true
block_loop (m ∷ ms) block =
    let rest = block_loop ms (drop 4 block) in
    if bit_and (load_le32 block) m == m then rest else false

unfoldable pub block_contains_scalar : ℕ → List ℕ → Bool
block_contains_scalar hash block = block_loop (masks_scalar (hash % 2 ^ 32)) block

-- `words[at] |= m[i]` and so on
unfoldable pub insert_masks : List ℕ → List ℕ → ℕ → List ℕ
insert_masks [] words at = words
insert_masks (m ∷ ms) words at =
    insert_masks ms (set words at (bit_or (get_or words at 0) m)) (at + 1)

-- `block * 8` is a uint32, a multiple of 8, so that adding an index below 8 does not wrap.
abbrev pub first_word : ℕ → ℕ
first_word block = block * 8 % 2 ^ 32

unfoldable pub insert_scalar : List ℕ → ℕ → ℕ → List ℕ
insert_scalar words block key = insert_masks (masks_scalar key) words (first_word block)

unfoldable pub find_masks : List ℕ → List ℕ → ℕ → Bool
find_masks [] words at = true
find_masks (m ∷ ms) words at =
    let rest = find_masks ms words (at + 1) in
    if bit_and (get_or words at 0) m == m then rest else false

unfoldable pub find_scalar : List ℕ → ℕ → ℕ → Bool
find_scalar words block key = find_masks (masks_scalar key) words (first_word block)

pub record BsbfBuilder : Type 0 where
  pub words : List ℕ
  pub num_bytes : ℕ
  pub num_blocks : ℕ
  pub ndv : ℕ

unfoldable pub insert : BsbfBuilder → ℕ → BsbfBuilder
insert b hash = record b {
  words = insert_scalar b.words (bsbf_block_index hash b.num_blocks) (hash % 2 ^ 32);
}

unfoldable pub maybe_contains : BsbfBuilder → ℕ → Bool
maybe_contains b hash = find_scalar b.words (bsbf_block_index hash b.num_blocks) (hash % 2 ^ 32)

-- The builder of `num_bytes` bytes, once the size is known.
unfoldable pub create_sized : ℕ → ℕ → BsbfBuilder
create_sized ndv num_bytes = record {
  words = replicate (num_bytes / 4) 0;
  num_bytes = num_bytes;
  num_blocks = num_bytes / bytes_per_block;
  ndv = ndv;
}
