-- ===== src/Encoding/Varint.antt =====
-- core/src/encoding/varint.cpp, core/include/snii/encoding/varint.h
-- A range [p, end) of bytes is the list of them, and the `next` pointer is the list behind it.
pub mod RoundTrip
pub mod Shape
use snii.Common.{
  ℕ, zero, suc, ◌+◌, ◌*◌, ◌/◌, ◌%◌, ◌^◌, bit_and, bit_or, List, [], ◌∷◌, ltb, leb, ◌==◌,
  if◌then◌else◌,
}
use snii.Common.Status.{Result, ok, corruption, ◌>>=◌}

-- `while (v >= 0x80)`. A uint64 takes nine rounds at most, see `varint_fuel`.
unfoldable pub varint_len_loop : ℕ → ℕ → ℕ → ℕ
varint_len_loop zero v n = n
varint_len_loop (suc f) v n =
    let rest = varint_len_loop f (v / 2 ^ 7) (n + 1) in if leb 0x80 v then rest else n

unfoldable pub varint_len : ℕ → ℕ
unfolding varint_len_loop
varint_len v = varint_len_loop 10 v 1

-- The bytes that the loop stores at out[0], out[1], ...; each call starts at `out + i`.
unfoldable pub encode_varint_loop : ℕ → ℕ → List ℕ
encode_varint_loop zero v = []
encode_varint_loop (suc f) v =
    let rest = encode_varint_loop f (v / 2 ^ 7) in
    if leb 0x80 v then bit_or (v % 2 ^ 8) 0x80 ∷ rest else v % 2 ^ 8 ∷ []

-- The buffer `out` has room for ten bytes.
unfoldable pub encode_varint64 : ℕ → List ℕ
unfolding encode_varint_loop
encode_varint64 v = encode_varint_loop 10 v

unfoldable pub encode_varint32 : ℕ → List ℕ
unfolding encode_varint64
encode_varint32 v = encode_varint64 v

unfoldable pub decode_varint_loop : List ℕ → ℕ → ℕ → Result (ℕ × List ℕ)
decode_varint_loop [] result shift = corruption "varint truncated"
decode_varint_loop (b ∷ p) result shift =
    let result' = bit_or result (bit_and b 0x7f * 2 ^ shift % 2 ^ 64) in
    let rest = decode_varint_loop p result' (shift + 7) in
    if bit_and b 0x80 == 0
    then ok (result', p)
    else if leb 64 (shift + 7)
    then corruption "varint64 overflow"
    else rest

unfoldable pub decode_varint64 : List ℕ → Result (ℕ × List ℕ)
unfolding decode_varint_loop
decode_varint64 p = decode_varint_loop p 0 0

unfoldable pub decode_varint32 : List ℕ → Result (ℕ × List ℕ)
unfolding decode_varint64
decode_varint32 p = do
  (tmp, next) ← decode_varint64 p
  if ltb 0xffff_ffff tmp then corruption "varint32 overflow" else ok (tmp, next)
