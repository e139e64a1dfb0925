-- ===== src/Format/Bsbf/Header.antt =====
-- BsbfBuilder::serialize, BsbfHeader and bsbf_probe of core/src/format/bsbf.cpp.
use snii.Encoding.Sink.{◌⨾◌, put_bytes, ByteSink}
use snii.Format.Bsbf.{
  block_contains_scalar, load_le32, bytes_per_block, BsbfBuilder, bsbf_block_index,
}
use snii.Common.Status.{ok, ◌>>=◌, invalid_argument, corruption, Result}
use snii.Encoding.Crc32c.{crc32c}
use snii.Format.Bsbf.Sizing.{max_bytes, min_bytes}
use snii.Common.{
  ℕ, ◌+◌, ◌-◌, ◌*◌, ◌/◌, ◌%◌, ◌^◌, Bool, List, [], ◌∷◌, ◌++◌, length, take, drop, get_or, ltb, ◌==◌,
  not, ◌||◌, bit_and, if◌then◌else◌,
}

abbrev pub header_size : ℕ
header_size = 28

unfoldable pub store_le32 : ℕ → List ℕ
store_le32 v = (v % 2 ^ 8) ∷ (v / 2 ^ 8 % 2 ^ 8) ∷ (v / 2 ^ 16 % 2 ^ 8) ∷ (v / 2 ^ 24 % 2 ^ 8) ∷ []

-- The bytes of the words, as they lie in the memory of a little-endian machine.
unfoldable pub word_bytes : List ℕ → List ℕ
word_bytes [] = []
word_bytes (w ∷ ws) = store_le32 w ++ word_bytes ws

-- hdr[0], ..., hdr[19]
abbrev covered_header : BsbfBuilder → List ℕ
covered_header b =
    (0x42 ∷ 0x53 ∷ 0x42 ∷ 0x46 ∷ 1 ∷ 0 ∷ 0 ∷ 0 ∷ [])
    ++ (store_le32 b.num_bytes ++ (store_le32 b.num_blocks ++ store_le32 b.ndv))

-- The `num_bytes` bytes of the bitset.
abbrev pub bitset : BsbfBuilder → List ℕ
bitset b = take b.num_bytes (word_bytes b.words)

unfoldable pub packed_header : BsbfBuilder → List ℕ
packed_header b =
    covered_header b ++ (store_le32 (crc32c (covered_header b)) ++ store_le32 (crc32c (bitset b)))

unfoldable pub serialize : BsbfBuilder → ByteSink → Result ByteSink
serialize b sink =
    if b.num_bytes == 0
    then invalid_argument "bsbf: not built"
    else ok ((put_bytes (packed_header b) ⨾ put_bytes (bitset b)) sink)

pub record BsbfHeader : Type 0 where
  pub num_bytes : ℕ
  pub num_blocks : ℕ
  pub bitset_crc : ℕ
  pub bitset_base : ℕ

unfoldable pub bad_magic : List ℕ → Bool
bad_magic p =
    not (get_or p 0 0 == 0x42)
    || not (get_or p 1 0 == 0x53)
    || not (get_or p 2 0 == 0x42)
    || not (get_or p 3 0 == 0x46)

unfoldable pub bad_num_bytes : ℕ → Bool
bad_num_bytes nb = ltb nb min_bytes || ltb max_bytes nb || not (bit_and nb (nb - 1) == 0)

unfoldable pub parse : List ℕ → ℕ → Result BsbfHeader
parse p section_base =
    let nb = load_le32 (drop 8 p) in
    let nblk = load_le32 (drop 12 p) in
    if ltb (length p) header_size
    then corruption "bsbf: short header"
    else if bad_magic p
    then corruption "bsbf: bad magic"
    else if not (get_or p 4 0 == 1)
    then corruption "bsbf: bad version"
    else if not (get_or p 5 0 == 0)
    then corruption "bsbf: unsupported hash strategy"
    else if not (get_or p 6 0 == 0)
    then corruption "bsbf: unsupported index strategy"
    else if not (crc32c (take 20 p) == load_le32 (drop 20 p))
    then corruption "bsbf: header crc mismatch"
    else if bad_num_bytes nb
    then corruption "bsbf: num_bytes out of range or not power of 2"
    else if not (nblk == nb / bytes_per_block)
    then corruption "bsbf: num_blocks mismatch"
    else ok (record {
      num_bytes = nb;
      num_blocks = nblk;
      bitset_crc = load_le32 (drop 24 p);
      bitset_base = (section_base + header_size) % 2 ^ 64;
    })

unfoldable pub block_offset : BsbfHeader → ℕ → ℕ
block_offset h hash =
    (h.bitset_base + bsbf_block_index hash h.num_blocks * bytes_per_block) % 2 ^ 64

-- `read_at offset len` is FileReader::read_at.
module _ (read_at : ℕ → ℕ → Result (List ℕ)) where
  unfoldable pub bsbf_probe : BsbfHeader → ℕ → Result Bool
  bsbf_probe h hash = read_at (block_offset h hash) bytes_per_block >>= λ blk.
      if ltb (length blk) bytes_per_block
      then corruption "bsbf: short block read"
      else ok (block_contains_scalar hash blk)
