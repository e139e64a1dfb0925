-- ===== src/Encoding/Sink.antt =====
-- core/include/snii/encoding/byte_sink.h, core/src/encoding/byte_sink.cpp
-- A sink is its buffer; an operation takes the sink last and returns it with the bytes appended.
use snii.Common.{ℕ, zero, suc, ◌+◌, ◌*◌, ◌/◌, ◌%◌, ◌^◌, List, [], ◌∷◌, ◌++◌}
use snii.Encoding.Varint.{encode_varint64, encode_varint32}
use snii.Encoding.Zigzag.{zigzag_encode}

abbrev pub ByteSink : Type 0
ByteSink = List ℕ

abbrev pub Put : Type 0
Put = ByteSink → ByteSink

-- One call after the other on the same sink.
infixr 20 ◌⨾◌
unfoldable pub ◌⨾◌ : Put → Put → Put
◌⨾◌ p q sink = q (p sink)

unfoldable pub put_nothing : Put
put_nothing sink = sink

unfoldable pub put_u8 : ℕ → Put
put_u8 v buf = buf ++ (v ∷ [])

-- `for (int i = ...; ...; ++i) buf_.push_back(static_cast<uint8_t>(v >> (8 * i)))`, `n` rounds left.
unfoldable pub put_fixed_loop : ℕ → ℕ → ℕ → Put
put_fixed_loop zero i v buf = buf
put_fixed_loop (suc n) i v buf =
    put_fixed_loop n (i + 1) v (buf ++ ((v / 2 ^ (8 * i) % 2 ^ 8) ∷ []))

unfoldable pub put_fixed16 : ℕ → Put
put_fixed16 v buf = put_fixed_loop 2 0 v buf

unfoldable pub put_fixed32 : ℕ → Put
put_fixed32 v buf = put_fixed_loop 4 0 v buf

unfoldable pub put_fixed64 : ℕ → Put
put_fixed64 v buf = put_fixed_loop 8 0 v buf

unfoldable pub put_varint32 : ℕ → Put
unfolding encode_varint32
put_varint32 v buf = buf ++ encode_varint32 v

unfoldable pub put_varint64 : ℕ → Put
unfolding encode_varint64
put_varint64 v buf = buf ++ encode_varint64 v

unfoldable pub put_zigzag : ℕ → Put
unfolding put_varint64 zigzag_encode
put_zigzag v buf = put_varint64 (zigzag_encode v) buf

unfoldable pub put_bytes : List ℕ → Put
put_bytes s buf = buf ++ s

-- `for (const auto& a : l)` around writes.
unfoldable pub put_many : {A : Type 0} → (A → Put) → List A → Put
put_many put [] = put_nothing
put_many put (a ∷ l) = put a ⨾ put_many put l
