-- ===== src/Encoding/Varint/RoundTrip.antt =====
-- encode_varint64 with decode_varint64 and decode_varint32 of core/src/encoding/varint.cpp.
use snii.Common.{
  ℕ, zero, suc, ◌+◌, ◌*◌, ◌/◌, ◌%◌, ◌^◌, ◌≤◌, ◌<◌, ◌≡◌, ap, arith, List, [], ◌∷◌, ◌++◌,
}
use native.Mathlib.Decide.{dec_lt}
use snii.Common.Bits.{bit_or_high, bit_or_top, bit_and_mask, bit_and_bit}
use snii.Common.Digits.{pow-add_seven, pow_mono}
use snii.Common.Status.{ok}
use snii.Encoding.Varint.{encode_varint_loop, encode_varint64, decode_varint_loop, decode_varint64}

abbrev pub IsU64 : ℕ → Type 0
IsU64 v = v < 2 ^ 64

abbrev pub IsU32 : ℕ → Type 0
IsU32 v = v < 2 ^ 32

-- One round of the decoder on the last byte, and on one with the top bit set.
last_byte :
    (w acc shift : ℕ) (p : List ℕ)
    → w < 128
    → acc < 2 ^ shift
    → IsU64 (acc + w * 2 ^ shift)
    → decode_varint_loop (w ∷ p) acc shift ≡ ok (acc + w * 2 ^ shift, p)
unfolding decode_varint_loop
last_byte w acc shift p hw ha fits =
    ground (arith, bit_and_mask 7 w, bit_and_bit 7 w, bit_or_high shift w acc)

more_byte :
    (g acc shift : ℕ) (p : List ℕ)
    → g < 128
    → acc < 2 ^ shift
    → shift + 7 < 64
    → IsU64 (acc + g * 2 ^ shift)
    → decode_varint_loop ((g + 128) ∷ p) acc shift
      ≡ decode_varint_loop p (acc + g * 2 ^ shift) (shift + 7)
unfolding decode_varint_loop
more_byte g acc shift p hg ha hs fits =
    ground (arith, bit_and_mask 7 (g + 128), bit_and_bit 7 (g + 128), bit_or_high shift g acc)

-- The low group of `w` and the rest, both shifted.
split_group : (v at : ℕ) → v * 2 ^ at ≡ v % 128 * 2 ^ at + v / 128 * 2 ^ (at + 7)
split_group v at =
    let high = ap (λ (power : ℕ). v / 128 * power) (pow-add_seven at) in
    let whole = ap (λ (value : ℕ). value * 2 ^ at) parts in omega (arith, high, whole)
  where
    parts : v ≡ v % 128 + v / 128 * 128
    parts = omega arith

shift_fits : (w s : ℕ) → 128 ≤ w → IsU64 (w * 2 ^ s) → s + 7 < 64
shift_fits w s hw fits = grind (arith, pow-add_seven s, pow_mono 64 (s + 7))

pub encode_loop_last : (f w : ℕ) → w < 128 → encode_varint_loop (suc f) w ≡ w ∷ []
unfolding encode_varint_loop
encode_loop_last f w h = ground arith

pub encode_loop_more :
    (f w : ℕ)
    → 128 ≤ w
    → encode_varint_loop (suc f) w ≡ (w % 128 + 128) ∷ encode_varint_loop f (w / 128)
unfolding encode_varint_loop
encode_loop_more f w h = ground (arith, bit_or_top (w % 256))

decode-encode_loop :
    (f w acc shift : ℕ) (p : List ℕ)
    → w < 128 ^ suc f
    → acc < 2 ^ shift
    → IsU64 (acc + w * 2 ^ shift)
    → decode_varint_loop (encode_varint_loop (suc f) w ++ p) acc shift ≡ ok (acc + w * 2 ^ shift, p)
decode-encode_loop zero w acc shift p hw ha fits =
    rw (encode_loop_last 0 w hw) (last_byte w acc shift p hw ha fits)
decode-encode_loop (suc f) w acc shift p hw ha fits = elim (dec_lt w 128) [
  | yes lt ↦ rw (encode_loop_last (suc f) w lt) (last_byte w acc shift p lt ha fits)
  | no ge ↦ rw (encode_loop_more (suc f) w (omega arith)) (
      ground (
        arith,
        split_group w shift,
        shift_fits w shift,
        more_byte (w % 128) acc shift (encode_varint_loop (suc f) (w / 128) ++ p),
        pow-add_seven shift,
        below_next,
        decode-encode_loop f (w / 128) (acc + w % 128 * 2 ^ shift) (shift + 7) p (omega arith),
      ))
]
  where
    below_next : acc + w % 128 * 2 ^ shift < 2 ^ (shift + 7)
    below_next = rw pow-add_seven (grind arith)

-- decode_varint64 returns the uint64 that encode_varint64 wrote, and the input behind it.
pub decode_varint64-encode_varint64 :
    (v : ℕ) (p : List ℕ) → IsU64 v → decode_varint64 (encode_varint64 v ++ p) ≡ ok (v, p)
unfolding decode_varint64
decode_varint64-encode_varint64 v p h =
    unfold encode_varint64 in ground (arith, decode-encode_loop 9 v 0 0 p)
