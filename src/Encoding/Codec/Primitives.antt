-- ===== src/Encoding/Codec/Primitives.antt =====
-- The put_x of core/src/encoding/byte_sink.cpp and the get_x of byte_source.cpp.
use snii.Common.{
  ℕ, zero, suc, ◌+◌, ◌-◌, ◌*◌, ◌/◌, ◌%◌, ◌^◌, ◌≤◌, ◌<◌, ◌≡◌, refl, sym, ap, arith, List, [], ◌∷◌,
  ◌++◌, length, length-append, append_assoc, get_or-append, ◌∙◌, drop-append, take-append,
  append-nil, false, ltb, le→ltb,
}
use native.Mathlib.Nat.{div-div-eq-div-mul, pow-suc}
use snii.Common.Bits.{bit_or_high}
use snii.Common.Digits.{le_bytes, length-le_bytes, pow-add_eight}
use snii.Common.Status.{ok}
use snii.Encoding.Varint.{encode_varint64}
use snii.Encoding.Varint.RoundTrip.{IsU64, IsU32, decode_varint64-encode_varint64}
use snii.Encoding.Zigzag.{zigzag_encode, zigzag_encode-lt, zigzag_decode-zigzag_encode}
use snii.Encoding.Sink.{
  put_u8, put_fixed_loop, put_fixed16, put_fixed32, put_fixed64, put_varint32, put_varint64,
  put_zigzag, put_bytes,
}
use snii.Encoding.Source.{
  get_u8, get_fixed_loop, get_fixed16, get_fixed32, get_fixed64, get_varint32, get_varint64,
  get_zigzag, get_bytes, remaining,
}
use snii.Encoding.Codec.{Writes, Reads, Reads-reject, Reads-last, Reads-pure, at}

pub Writes-put_u8 : (v : ℕ) → Writes (put_u8 v) (v ∷ [])
unfolding put_u8
Writes-put_u8 v = record { run = λ sink. refl }

pub Writes-put_bytes : (bs : List ℕ) → Writes (put_bytes bs) bs
unfolding put_bytes
Writes-put_bytes bs = record { run = λ sink. refl }

pub Writes-put_varint64 : (v : ℕ) → Writes (put_varint64 v) (encode_varint64 v)
unfolding put_varint64
Writes-put_varint64 v = record { run = λ sink. refl }

pub Writes-put_varint32 : (v : ℕ) → Writes (put_varint32 v) (encode_varint64 v)
unfolding put_varint32
Writes-put_varint32 v = record { run = λ sink. refl }

pub Writes-put_zigzag : (v : ℕ) → Writes (put_zigzag v) (encode_varint64 (zigzag_encode v))
unfolding put_zigzag
Writes-put_zigzag v = record { run = λ sink. refl }

shift_byte : (v i : ℕ) → v / 2 ^ (8 * (i + 1)) ≡ v / 2 ^ (8 * i) / 256
shift_byte v i =
    rw (next, pow-add_eight (8 * i), swap, ← div-div-eq-div-mul v (2 ^ (8 * i)) 256) refl
  where
    next : 8 * (i + 1) ≡ 8 * i + 8
    next = omega arith

    swap : 256 * 2 ^ (8 * i) ≡ 2 ^ (8 * i) * 256
    swap = omega arith

put_fixed_loop-le :
    (n i v : ℕ) (sink : List ℕ) → put_fixed_loop n i v sink ≡ sink ++ le_bytes n (v / 2 ^ (8 * i))
unfolding put_fixed_loop le_bytes
put_fixed_loop-le zero i v sink = sym (append-nil sink)
put_fixed_loop-le (suc n) i v sink =
    rw (put_fixed_loop-le n (i + 1) v _, shift_byte v i) (append_assoc sink _ _)

put_fixed_loop-start : (n v : ℕ) (sink : List ℕ) → put_fixed_loop n 0 v sink ≡ sink ++ le_bytes n v
put_fixed_loop-start n v sink =
    let whole : v / 2 ^ (8 * 0) ≡ v = omega arith in rw whole at (put_fixed_loop-le n 0 v sink)

get_fixed_step :
    (n i r x pos : ℕ) (front rest : List ℕ)
    → r < 2 ^ (8 * i)
    → pos + i ≡ length front
    → get_fixed_loop (suc n) i r (front ++ (x ∷ rest)) pos
      ≡ get_fixed_loop n (i + 1) (r + x * 2 ^ (8 * i)) ((front ++ (x ∷ [])) ++ rest) pos
unfolding get_fixed_loop
get_fixed_step n i r x pos front rest h e =
    rw
      (e, get_or-append front rest x 0, bit_or_high (8 * i) x r h, append_assoc front (x ∷ []) rest)

next_low : (i r w : ℕ) → r < 2 ^ (8 * i) → r + w % 256 * 2 ^ (8 * i) < 2 ^ (8 * (i + 1))
next_low i r w h = rw (next, pow-add_eight (8 * i)) (grind arith)
  where
    next : 8 * (i + 1) ≡ 8 * i + 8
    next = omega arith

regroup :
    (i r w : ℕ) → r + w % 256 * 2 ^ (8 * i) + w / 256 * 2 ^ (8 * (i + 1)) ≡ r + w * 2 ^ (8 * i)
regroup i r w =
    rw (next, pow-add_eight (8 * i)) (omega (arith, ap (λ (t : ℕ). t * 2 ^ (8 * i)) split))
  where
    next : 8 * (i + 1) ≡ 8 * i + 8
    next = omega arith

    split : w ≡ w % 256 + w / 256 * 256
    split = omega arith

get_fixed_loop-le :
    (n i r w pos : ℕ) (front rest : List ℕ)
    → r < 2 ^ (8 * i)
    → pos + i ≡ length front
    → w < 256 ^ n
    → get_fixed_loop n i r (front ++ (le_bytes n w ++ rest)) pos ≡ r + w * 2 ^ (8 * i)
unfolding le_bytes
get_fixed_loop-le zero i r zero pos front rest h e fits = unfold get_fixed_loop in omega arith
get_fixed_loop-le zero i r (suc w) pos front rest h e fits = absurd (omega arith)
get_fixed_loop-le (suc n) i r w pos front rest h e fits =
    (rw (get_fixed_step n i r (w % 256) pos front (le_bytes n (w / 256) ++ rest) h e) (
      get_fixed_loop-le n (i + 1) (r + w % 256 * 2 ^ (8 * i)) (w / 256) pos
        (front ++ ((w % 256) ∷ [])) rest (next_low i r w h)
        (omega (arith, length-append front ((w % 256) ∷ []))) (grind (arith, pow-suc 256 n))
      ∙ regroup i r w))

room :
    (front bs rest : List ℕ) (n : ℕ)
    → n ≤ length bs
    → ltb (remaining (at front (bs ++ rest))) n ≡ false
unfolding remaining
room front bs rest n h =
    le→ltb _ _ (omega (arith, length-append front (bs ++ rest), length-append bs rest))

-- The cursor `n` bytes on is the one behind `n` bytes.
step_at :
    (front bs rest : List ℕ) (n : ℕ)
    → length bs ≡ n
    → record { s = front ++ (bs ++ rest); pos = length front + n } ≡ at (front ++ bs) rest
step_at front bs rest n h = rw (append_assoc front bs rest, length-append front bs, h) refl

pub Reads-get_u8 : (v : ℕ) → Reads get_u8 (v ∷ []) v
unfolding get_u8
Reads-get_u8 v = record {
  run = λ front rest.
      rw (room front (v ∷ []) rest 1 (omega arith), get_or-append front rest v 0)
        (ap (λ src. ok (v, src)) (step_at front (v ∷ []) rest 1 refl));
}

-- The value that the loop of get_fixed16, get_fixed32 and get_fixed64 assembles.
fixed_value :
    (n v : ℕ) (front rest : List ℕ)
    → v < 256 ^ n
    → get_fixed_loop n 0 0 (front ++ (le_bytes n v ++ rest)) (length front) ≡ v
fixed_value n v front rest h =
    omega (arith, get_fixed_loop-le n 0 0 v (length front) front rest (omega arith) (omega arith) h)

pub Reads-get_fixed16 : (v : ℕ) → v < 2 ^ 16 → Reads get_fixed16 (le_bytes 2 v) v
unfolding get_fixed16
Reads-get_fixed16 v h = record {
  run = λ front rest.
      rw
        (
          room front (le_bytes 2 v) rest 2 (omega (arith, length-le_bytes 2 v)),
          fixed_value 2 v front rest h,
        )
        (ap (λ src. ok (v, src)) (step_at front (le_bytes 2 v) rest 2 (length-le_bytes 2 v)));
}

pub Reads-get_fixed32 : (v : ℕ) → v < 2 ^ 32 → Reads get_fixed32 (le_bytes 4 v) v
unfolding get_fixed32
Reads-get_fixed32 v h = record {
  run = λ front rest.
      rw
        (
          room front (le_bytes 4 v) rest 4 (omega (arith, length-le_bytes 4 v)),
          fixed_value 4 v front rest h,
        )
        (ap (λ src. ok (v, src)) (step_at front (le_bytes 4 v) rest 4 (length-le_bytes 4 v)));
}

pub Reads-get_fixed64 : (v : ℕ) → v < 2 ^ 64 → Reads get_fixed64 (le_bytes 8 v) v
unfolding get_fixed64
Reads-get_fixed64 v h = record {
  run = λ front rest.
      rw
        (
          room front (le_bytes 8 v) rest 8 (omega (arith, length-le_bytes 8 v)),
          fixed_value 8 v front rest h,
        )
        (ap (λ src. ok (v, src)) (step_at front (le_bytes 8 v) rest 8 (length-le_bytes 8 v)));
}

pub Writes-put_fixed16 : (v : ℕ) → Writes (put_fixed16 v) (le_bytes 2 v)
unfolding put_fixed16
Writes-put_fixed16 v = record { run = put_fixed_loop-start 2 v }

pub Writes-put_fixed32 : (v : ℕ) → Writes (put_fixed32 v) (le_bytes 4 v)
unfolding put_fixed32
Writes-put_fixed32 v = record { run = put_fixed_loop-start 4 v }

pub Writes-put_fixed64 : (v : ℕ) → Writes (put_fixed64 v) (le_bytes 8 v)
unfolding put_fixed64
Writes-put_fixed64 v = record { run = put_fixed_loop-start 8 v }

pub Reads-get_bytes : (bs : List ℕ) → Reads (get_bytes (length bs)) bs bs
unfolding get_bytes
Reads-get_bytes bs = record {
  run = λ front rest.
      rw
        (
          room front bs rest (length bs) (omega arith),
          drop-append front (bs ++ rest),
          take-append bs rest,
        )
        (ap (λ src. ok (bs, src)) (step_at front bs rest (length bs) refl));
}

behind :
    (front bs rest : List ℕ)
    → length (front ++ (bs ++ rest)) - length rest ≡ length front + length bs
behind front bs rest = omega (arith, length-append front (bs ++ rest), length-append bs rest)

pub Reads-get_varint64 : (v : ℕ) → IsU64 v → Reads get_varint64 (encode_varint64 v) v
unfolding get_varint64
Reads-get_varint64 v h = record {
  run = λ front rest.
      rw
        (
          drop-append front (encode_varint64 v ++ rest),
          decode_varint64-encode_varint64 v rest h,
          behind front (encode_varint64 v) rest,
        )
        (ap (λ src. ok (v, src)) (step_at front (encode_varint64 v) rest _ refl));
}

pub Reads-get_varint32 : (v : ℕ) → IsU32 v → Reads get_varint32 (encode_varint64 v) v
unfolding get_varint32
Reads-get_varint32 v h =
    Reads-last _ v (Reads-get_varint64 v (omega arith))
      (Reads-reject _ (le→ltb _ _ (omega arith)) (Reads-pure v))

pub Reads-get_zigzag : (v : ℕ) → IsU64 v → Reads get_zigzag (encode_varint64 (zigzag_encode v)) v
unfolding get_zigzag
Reads-get_zigzag v h =
    Reads-last _ (zigzag_encode v) (Reads-get_varint64 (zigzag_encode v) (zigzag_encode-lt v h))
      (rw (zigzag_decode-zigzag_encode v h) (Reads-pure v))
