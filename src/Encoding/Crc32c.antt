-- ===== src/Encoding/Crc32c.antt =====
-- core/src/encoding/crc32c.cpp, the portable path: the lookup tables and the slice-by-8 loop.
use snii.Common.{
  ℕ, zero, suc, ◌-◌, ◌*◌, ◌/◌, ◌^◌, List, [], ◌∷◌, bit_and, bit_or, bit_xor, ◌<◌, ◌≡◌, refl, arith,
  ◌==◌, if◌then◌else◌,
}

abbrev pub poly : ℕ
poly = 0x82F63B78

-- One round of `c = (c & 1) ? (kPoly ^ (c >> 1)) : (c >> 1)`.
unfoldable pub crc_shift : ℕ → ℕ
crc_shift c = if bit_and c 1 == 0 then c / 2 else bit_xor poly (c / 2)

unfoldable pub crc_shifts : ℕ → ℕ → ℕ
crc_shifts zero c = c
crc_shifts (suc k) c = crc_shifts k (crc_shift c)

-- t[0][i]
unfoldable pub table0 : ℕ → ℕ
table0 i = crc_shifts 8 i

-- kSlice8[s][i] as make_slice8_table fills it.
unfoldable pub slice8 : ℕ → ℕ → ℕ
slice8 zero i = table0 i
slice8 (suc s) i = let c = slice8 s i in bit_xor (table0 (bit_and c 0xFF)) (c / 2 ^ 8)

unfoldable pub load_le32 : ℕ → ℕ → ℕ → ℕ → ℕ
load_le32 p0 p1 p2 p3 = bit_or (bit_or (bit_or p0 (p1 * 2 ^ 8)) (p2 * 2 ^ 16)) (p3 * 2 ^ 24)

-- `crc = kSlice8[0][(crc ^ *p++) & 0xFF] ^ (crc >> 8)`
unfoldable pub crc_byte : ℕ → ℕ → ℕ
crc_byte crc b = bit_xor (slice8 0 (bit_and (bit_xor crc b) 0xFF)) (crc / 2 ^ 8)

-- The body of `while (n >= 8)` after `crc ^= load_le32(p)` and `hi = load_le32(p + 4)`.
unfoldable pub crc_word : ℕ → ℕ → ℕ
crc_word crc hi =
    bit_xor
      (bit_xor
        (bit_xor
          (bit_xor
            (bit_xor
              (bit_xor
                (bit_xor (slice8 7 (bit_and crc 0xFF)) (slice8 6 (bit_and (crc / 2 ^ 8) 0xFF)))
                (slice8 5 (bit_and (crc / 2 ^ 16) 0xFF)))
              (slice8 4 (crc / 2 ^ 24)))
            (slice8 3 (bit_and hi 0xFF)))
          (slice8 2 (bit_and (hi / 2 ^ 8) 0xFF)))
        (slice8 1 (bit_and (hi / 2 ^ 16) 0xFF)))
      (slice8 0 (hi / 2 ^ 24))

-- `while (n--)`
unfoldable pub crc_tail : ℕ → List ℕ → ℕ
crc_tail crc [] = crc
crc_tail crc (b ∷ p) = crc_tail (crc_byte crc b) p

-- The clauses match as many bytes as `while (n >= 8)` takes.
unfoldable pub crc32c_slice8 : ℕ → List ℕ → ℕ
crc32c_slice8 crc (b0 ∷ b1 ∷ b2 ∷ b3 ∷ b4 ∷ b5 ∷ b6 ∷ b7 ∷ p) =
    crc32c_slice8 (crc_word (bit_xor crc (load_le32 b0 b1 b2 b3)) (load_le32 b4 b5 b6 b7)) p
crc32c_slice8 crc p = crc_tail crc p

-- `~crc` on a uint32_t.
abbrev complement : ℕ → ℕ
complement crc = 2 ^ 32 - 1 - crc

unfoldable pub crc32c_extend : ℕ → List ℕ → ℕ
crc32c_extend crc p = complement (crc32c_slice8 (complement crc) p)

unfoldable pub crc32c : List ℕ → ℕ
crc32c p = crc32c_extend 0 p

pub crc32c-lt : (p : List ℕ) → crc32c p < 2 ^ 32
unfolding crc32c crc32c_extend
crc32c-lt p = omega arith

-- The check value of CRC-32C: the checksum of "123456789".
crc32c_check :
    crc32c (0x31 ∷ 0x32 ∷ 0x33 ∷ 0x34 ∷ 0x35 ∷ 0x36 ∷ 0x37 ∷ 0x38 ∷ 0x39 ∷ []) ≡ 0xE3069283
unfolding crc32c crc32c_extend crc32c_slice8 crc_tail crc_word crc_byte slice8 table0 crc_shifts
    crc_shift load_le32
crc32c_check = refl
