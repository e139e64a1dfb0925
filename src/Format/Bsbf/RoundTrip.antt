-- ===== src/Format/Bsbf/RoundTrip.antt =====
-- BsbfHeader::parse of core/src/format/bsbf.cpp on what BsbfBuilder::serialize writes.
use snii.Format.Bsbf.Sizes.{IsStored}
use snii.Common.{
  ==_self, ==_iff, ltb, le→ltb, ◌-◌, bit_and, ℕ, ◌+◌, ◌*◌, ◌/◌, ◌%◌, ◌^◌, ◌≤◌, ◌<◌, ◌≡◌, refl,
  arith, true, false, List, ◌++◌, length, take, drop, bit_or, ◌==◌,
}
use snii.Format.Bsbf.{bytes_per_block, BsbfBuilder, load_le32}
use snii.Encoding.Codec.Primitives.{Writes-put_bytes}
use snii.Encoding.Codec.{Writes-⨾}
use native.Mathlib.Nat.{mod_self}
use snii.Format.Bsbf.Sizing.{max_bytes, min_bytes}
use snii.Encoding.Crc32c.{crc32c-lt, crc32c}
use snii.Common.Bits.{bit_and_mask, bit_or_high}
use snii.Format.Bsbf.Header.{
  bad_magic, header_size, packed_header, BsbfHeader, serialize, parse, bad_num_bytes, bitset,
  store_le32,
}
use snii.Common.Status.{ok}
use snii.Common.Digits.{pow_mono}

load_byte :
    (v : ℕ)
    → v < 2 ^ 32
    → bit_or
        (bit_or (bit_or (v % 2 ^ 8) (v / 2 ^ 8 % 2 ^ 8 * 2 ^ 8)) (v / 2 ^ 16 % 2 ^ 8 * 2 ^ 16))
        (v / 2 ^ 24 % 2 ^ 8 * 2 ^ 24)
      ≡ v
load_byte v h = rw (bit_or_high 8 (v / 2 ^ 8 % 2 ^ 8) (v % 2 ^ 8) (omega arith)) (
    rw (bit_or_high 16 (v / 2 ^ 16 % 2 ^ 8) (v % 2 ^ 8 + v / 2 ^ 8 % 2 ^ 8 * 2 ^ 8) (omega arith)) (
      rw
        (bit_or_high 24 (v / 2 ^ 24 % 2 ^ 8)
          (v % 2 ^ 8 + v / 2 ^ 8 % 2 ^ 8 * 2 ^ 8 + v / 2 ^ 16 % 2 ^ 8 * 2 ^ 16) (omega arith))
        (omega arith)))

-- A 32-bit word is read back from its bytes.
pub load_le32-store_le32 :
    (v : ℕ) (rest : List ℕ) → v < 2 ^ 32 → load_le32 (store_le32 v ++ rest) ≡ v
unfolding load_le32 store_le32
load_le32-store_le32 v rest h = load_byte v h

pub num_bytes-range : (b : BsbfBuilder) → IsStored b → (32 ≤ b.num_bytes) × (b.num_bytes ≤ 2 ^ 27)
num_bytes-range b v = (
  omega (arith, v.size.is_power, pow_mono 5 v.size.exponent v.size.low),
  omega (arith, v.size.is_power, pow_mono v.size.exponent 27 v.size.high),
)

good_num_bytes : (b : BsbfBuilder) → IsStored b → bad_num_bytes b.num_bytes ≡ false
unfolding bad_num_bytes
good_num_bytes b v =
    rw
      (
        le→ltb b.num_bytes min_bytes ((num_bytes-range b v).0),
        le→ltb max_bytes b.num_bytes ((num_bytes-range b v).1),
        no_other_bit,
      )
      refl
  where
    no_other_bit : bit_and b.num_bytes (b.num_bytes - 1) ≡ 0
    no_other_bit =
        rw (v.size.is_power, bit_and_mask v.size.exponent (2 ^ v.size.exponent))
          (mod_self (2 ^ v.size.exponent))

-- serialize appends the header and the bitset.
pub serialize_lem :
    (b : BsbfBuilder) (sink : List ℕ)
    → IsStored b
    → serialize b sink ≡ ok (sink ++ (packed_header b ++ bitset b))
unfolding serialize
serialize_lem b sink v =
    rw
      (
        some_bytes,
        (Writes-⨾ (Writes-put_bytes (packed_header b)) (Writes-put_bytes (bitset b))).run sink,
      )
      refl
  where
    some_bytes : (b.num_bytes == 0) ≡ false
    some_bytes = ground (arith, num_bytes-range b v)

abbrev pub header_of : BsbfBuilder → ℕ → BsbfHeader
header_of b base = record {
  num_bytes = b.num_bytes;
  num_blocks = b.num_blocks;
  bitset_crc = crc32c (bitset b);
  bitset_base = (base + header_size) % 2 ^ 64;
}

-- parse reads the header of a builder back, whatever stands behind it.
pub parse-packed_header :
    (b : BsbfBuilder) (base : ℕ) (rest : List ℕ)
    → IsStored b
    → parse (packed_header b ++ rest) base ≡ ok (header_of b base)
unfolding parse packed_header store_le32 bad_magic
parse-packed_header b base rest v =
    rw
      (
        num_bytes,
        num_blocks,
        covered,
        good_num_bytes b v,
        long,
        ==_self (crc32c (take 20 p)),
        same_blocks,
        bits,
      )
      refl
  where
    p : List ℕ
    p = packed_header b ++ rest

    num_bytes : load_le32 (drop 8 p) ≡ b.num_bytes
    num_bytes = load_le32-store_le32 b.num_bytes _ (omega (arith, num_bytes-range b v))

    num_blocks : load_le32 (drop 12 p) ≡ b.num_blocks
    num_blocks = load_le32-store_le32 b.num_blocks _ v.built.fits

    covered : load_le32 (drop 20 p) ≡ crc32c (take 20 p)
    covered = load_le32-store_le32 (crc32c (take 20 p)) _ (crc32c-lt _)

    long : ltb (length p) header_size ≡ false
    long = le→ltb _ _ (omega arith)

    same_blocks : (b.num_blocks == b.num_bytes / bytes_per_block) ≡ true
    same_blocks = (==_iff _ _).1 v.blocks

    bits : load_le32 (drop 24 p) ≡ crc32c (bitset b)
    bits = load_le32-store_le32 (crc32c (bitset b)) _ (crc32c-lt _)
