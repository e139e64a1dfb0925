-- ===== src/Encoding/Zigzag.antt =====
-- zigzag_encode and zigzag_decode of core/include/snii/encoding/varint.h.
-- An int64_t is its two's complement bit pattern, a number below 2 ^ 64.
use snii.Common.{
  ℕ, ◌-◌, ◌*◌, ◌/◌, ◌%◌, ◌^◌, ◌<◌, ◌≡◌, arith, bit_xor, bit_and, leb, true, false, if◌then◌else◌,
}
use native.Mathlib.Decide.{dec_lt}
use snii.Common.Bits.{bit_xor-zero, bit_xor-ones, bit_and_mask}

-- `v >> 63` copies the sign bit into every place.
abbrev sign_fill : ℕ → ℕ
sign_fill v = if leb (2 ^ 63) v then 2 ^ 64 - 1 else 0

unfoldable pub zigzag_encode : ℕ → ℕ
zigzag_encode v = bit_xor (v * 2 % 2 ^ 64) (sign_fill v)

unfoldable pub zigzag_decode : ℕ → ℕ
zigzag_decode v = bit_xor (v / 2) ((2 ^ 64 - bit_and v 1) % 2 ^ 64)

-- A number n ≥ 0 is encoded as 2 * n, and a number n < 0 as -2 * n - 1.
pub zigzag_encode_lem :
    (v : ℕ)
    → v < 2 ^ 64
    → zigzag_encode v ≡ (if leb (2 ^ 63) v then 2 * (2 ^ 64 - v) - 1 else 2 * v)
unfolding zigzag_encode
zigzag_encode_lem v h =
    ground (arith, bit_xor-ones 64 (v * 2 % 2 ^ 64), bit_xor-zero (v * 2 % 2 ^ 64))

pub zigzag_encode-lt : (v : ℕ) → v < 2 ^ 64 → zigzag_encode v < 2 ^ 64
zigzag_encode-lt v h = ground (arith, zigzag_encode_lem v h)

-- zigzag_decode gives back every int64 that zigzag_encode took.
pub zigzag_decode-zigzag_encode : (v : ℕ) → v < 2 ^ 64 → zigzag_decode (zigzag_encode v) ≡ v
zigzag_decode-zigzag_encode v h = rw (zigzag_encode_lem v h) (elim (dec_lt v (2 ^ 63)) [
  | yes lt ↦ rw (le→leb_false lt) (unfold zigzag_decode in even_back)
  | no ge ↦ rw (le→leb_true ge) (unfold zigzag_decode in odd_back)
])
  where
    le→leb_false : v < 2 ^ 63 → leb (2 ^ 63) v ≡ false
    le→leb_false lt = ground arith

    le→leb_true : ¬ (v < 2 ^ 63) → leb (2 ^ 63) v ≡ true
    le→leb_true ge = ground arith

    even_back : bit_xor (2 * v / 2) ((2 ^ 64 - bit_and (2 * v) 1) % 2 ^ 64) ≡ v
    even_back = ground (arith, bit_and_mask 1 (2 * v), bit_xor-zero v)

    odd_back :
        bit_xor ((2 * (2 ^ 64 - v) - 1) / 2) ((2 ^ 64 - bit_and (2 * (2 ^ 64 - v) - 1) 1) % 2 ^ 64)
        ≡ v
    odd_back =
        ground (arith, bit_and_mask 1 (2 * (2 ^ 64 - v) - 1), bit_xor-ones 64 (2 ^ 64 - v - 1))
