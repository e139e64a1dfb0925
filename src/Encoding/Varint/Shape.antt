-- ===== src/Encoding/Varint/Shape.antt =====
-- The bytes that core/src/encoding/varint.cpp writes and takes.
use snii.Common.{
  ℕ, zero, suc, ◌+◌, ◌*◌, ◌/◌, ◌%◌, ◌^◌, ◌≤◌, ◌<◌, ◌≡◌, ◌≢◌, refl, ap, arith, bit_and, bit_or, List,
  [], ◌∷◌, ◌++◌, length, length-append, All, ltb, if◌then◌else◌,
}
use native.Mathlib.Decide.{dec_lt}
use snii.Common.Bits.{bit_or-lt, bit_and_bit}
use snii.Common.Digits.{IsByte}
use snii.Common.Status.{ok, corruption}
use snii.Encoding.Varint.{
  varint_len_loop, varint_len, encode_varint_loop, encode_varint64, decode_varint_loop,
  decode_varint64, decode_varint32,
}
use snii.Encoding.Varint.RoundTrip.{
  IsU64, encode_loop_last, encode_loop_more, decode_varint64-encode_varint64,
}

encode_loop-shape :
    (f v : ℕ)
    → v < 128 ^ suc f
    → All IsByte (encode_varint_loop (suc f) v)
      × (1 ≤ length (encode_varint_loop (suc f) v))
      × (length (encode_varint_loop (suc f) v) ≤ suc f)
encode_loop-shape zero v h = rw (encode_loop_last 0 v h) (omega arith)
encode_loop-shape (suc f) v h = elim (dec_lt v 128) [
  | yes lt ↦ rw (encode_loop_last (suc f) v lt) (omega arith)
  | no ge ↦
      let (bytes, lo, hi) = encode_loop-shape f (v / 128) (omega arith) in
      rw (encode_loop_more (suc f) v (omega arith)) ((omega arith, bytes), omega arith, omega arith)
]

-- For a uint64, encode_varint64 writes numbers below 256, and between one and ten of them.
pub encode_varint64_shape :
    (v : ℕ)
    → IsU64 v
    → All IsByte (encode_varint64 v)
      × (1 ≤ length (encode_varint64 v))
      × (length (encode_varint64 v) ≤ 10)
unfolding encode_varint64
encode_varint64_shape v h = encode_loop-shape 9 v (omega arith)

varint_len_loop-length :
    (f v n : ℕ)
    → v < 128 ^ suc f
    → varint_len_loop (suc f) v (n + 1) ≡ n + length (encode_varint_loop (suc f) v)
unfolding varint_len_loop encode_varint_loop
varint_len_loop-length zero v n h = ground arith
varint_len_loop-length (suc f) v n h =
    ground (arith, varint_len_loop-length f (v / 128) (n + 1) (omega arith))

-- For a uint64, varint_len is the number of bytes that encode_varint64 writes.
pub varint_len-length : (v : ℕ) → IsU64 v → varint_len v ≡ length (encode_varint64 v)
unfolding varint_len encode_varint64
varint_len-length v h = omega (arith, varint_len_loop-length 9 v 0 (omega arith))

decode_loop_takes :
    (p : List ℕ) (acc shift j v : ℕ) (next : List ℕ)
    → shift ≡ 7 * j
    → j ≤ 9
    → IsU64 acc
    → decode_varint_loop p acc shift ≡ ok (v, next)
    → IsU64 v × (length next < length p) × (length p + j ≤ length next + 10)
unfolding decode_varint_loop
decode_loop_takes [] acc shift j v next hs hj ha e = cc
decode_loop_takes (b ∷ p) acc shift j v next hs hj ha e = ground (
  arith,
  bit_or-lt 64 acc (bit_and b 0x7f * 2 ^ shift % 2 ^ 64),
  decode_loop_takes p (bit_or acc (bit_and b 0x7f * 2 ^ shift % 2 ^ 64)) (shift + 7) (j + 1) v next,
)

-- A successful decode_varint64 returns a uint64 and takes one to ten bytes off the input.
pub decode_varint64_takes :
    (p : List ℕ) (v : ℕ) (next : List ℕ)
    → decode_varint64 p ≡ ok (v, next)
    → IsU64 v × (length next < length p) × (length p ≤ length next + 10)
unfolding decode_varint64
decode_varint64_takes p v next e = ground (arith, decode_loop_takes p 0 0 0 v next)

-- decode_varint32 returns what encode_varint64 wrote if it fits 32 bits, and an error if not.
pub decode_varint32-encode_varint64 :
    (v : ℕ) (p : List ℕ)
    → IsU64 v
    → decode_varint32 (encode_varint64 v ++ p)
      ≡ (if ltb 0xffff_ffff v then corruption "varint32 overflow" else ok (v, p))
unfolding decode_varint32
decode_varint32-encode_varint64 v p h = rw (decode_varint64-encode_varint64 v p h)

no_room : (w b x : ℕ) (front back : List ℕ) → w ∷ [] ≢ b ∷ (front ++ (x ∷ back))
no_room w b x front back e =
    absurd
      (omega (arith, ap length {y = b ∷ (front ++ (x ∷ back))} e, length-append front (x ∷ back)))

decode_loop_prefix :
    (f w acc shift x : ℕ) (front back : List ℕ)
    → w < 128 ^ suc f
    → shift + 7 * f ≤ 63
    → encode_varint_loop (suc f) w ≡ front ++ (x ∷ back)
    → decode_varint_loop front acc shift ≡ corruption "varint truncated"
unfolding decode_varint_loop
decode_loop_prefix f w acc shift x [] back hw hs e = refl
decode_loop_prefix zero w acc shift x (b ∷ front) back hw hs e =
    absurd (no_room w b x front back (rw (encode_loop_last 0 w hw) at e))
decode_loop_prefix (suc f) w acc shift x (b ∷ front) back hw hs e = elim (dec_lt w 128) [
  | yes lt ↦ absurd (no_room w b x front back (rw (encode_loop_last (suc f) w lt) at e))
  | no ge ↦ ground (
    arith,
    encode_loop_more (suc f) w (omega arith),
    bit_and_bit 7 (w % 128 + 128),
    decode_loop_prefix f (w / 128) (bit_or acc (bit_and b 0x7f * 2 ^ shift % 2 ^ 64)) (shift + 7) x
        front back (omega arith) (omega arith),
  )
]

-- A number cut short: every proper prefix of the encoding of a uint64 is refused as truncated.
pub decode_varint64_prefix :
    (v x : ℕ) (front back : List ℕ)
    → IsU64 v
    → encode_varint64 v ≡ front ++ (x ∷ back)
    → decode_varint64 front ≡ corruption "varint truncated"
unfolding decode_varint64 encode_varint64
decode_varint64_prefix v x front back h e =
    decode_loop_prefix 9 v 0 0 x front back (omega arith) (omega arith) e

-- At least one byte is written, whatever the value.
pub encode_varint64_ge_one : (v : ℕ) → 1 ≤ length (encode_varint64 v)
unfolding encode_varint64 encode_varint_loop
encode_varint64_ge_one v = ground arith
