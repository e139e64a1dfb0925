-- ===== src/Encoding/Source.antt =====
-- core/include/snii/encoding/byte_source.h, core/src/encoding/byte_source.cpp,
-- core/include/snii/common/slice.h
-- A slice is the list of its bytes. A reader returns the value and the advanced cursor.
pub mod Bounds
use snii.Common.{
  zero, suc, [], ◌∷◌, ℕ, ◌+◌, ◌-◌, ◌*◌, ◌^◌, Bool, List, length, take, drop, get_or, ltb, ◌==◌,
  if◌then◌else◌, bit_or,
}
use snii.Common.Status.{Status, Result, ok, fail, corruption}
use snii.Encoding.Varint.{decode_varint64}
use snii.Encoding.Zigzag.{zigzag_decode}

abbrev pub Slice : Type 0
Slice = List ℕ

pub record ByteSource : Type 0 where
  pub s : Slice
  pub pos : ℕ

-- `ByteSource(Slice s)`
abbrev pub source : Slice → ByteSource
source s = record { s = s; pos = 0 }

abbrev pub Get : Type 0 → Type 0
Get A = ByteSource → Result (A × ByteSource)

-- A failing read ends the caller, by SNII_RETURN_IF_ERROR.
abbrev pub after : {A B : Type 0} → Result (A × ByteSource) → (A → Get B) → Result (B × ByteSource)
after (ok (a, src)) f = f a src
after (fail e) f = fail e

infixl 5 ◌>>=◌ ◌>>◌
unfoldable pub ◌>>=◌ : {A B : Type 0} → Get A → (A → Get B) → Get B
◌>>=◌ g f src = after (g src) f

unfoldable pub ◌>>◌ : {B : Type 0} → Get (Unit {0}) → Get B → Get B
unfolding ◌>>=◌
g >> k = g >>= λ _. k

unfoldable pub pure : {A : Type 0} → A → Get A
pure a src = ok (a, src)

-- `if (b) return e;`
unfoldable pub reject_if : Bool → Result (Unit {0} × ByteSource) → Get (Unit {0})
reject_if b e src = if b then e else ok (tt, src)

unfoldable pub lift : {A : Type 0} → Result A → Get A
lift (ok a) src = ok (a, src)
lift (fail e) src = fail e

abbrev pub subslice : Slice → ℕ → ℕ → Slice
subslice s off n = take n (drop off s)

unfoldable pub remaining : ByteSource → ℕ
remaining src = length src.s - src.pos

unfoldable pub eof : ByteSource → Bool
eof src = src.pos == length src.s

abbrev pub slice_from : ByteSource → ℕ → ℕ → Slice
slice_from src start len = subslice src.s start len

unfoldable pub get_u8 : Get ℕ
get_u8 src =
    if ltb (remaining src) 1
    then corruption "get_u8 overrun"
    else ok (get_or src.s src.pos 0, record src { pos = src.pos + 1 })

-- `for (int i = ...; ...; ++i) r |= s_[pos_ + i] << (8 * i)`, `n` rounds left.
unfoldable pub get_fixed_loop : ℕ → ℕ → ℕ → Slice → ℕ → ℕ
get_fixed_loop zero i r s pos = r
get_fixed_loop (suc n) i r s pos =
    get_fixed_loop n (i + 1) (bit_or r (get_or s (pos + i) 0 * 2 ^ (8 * i))) s pos

unfoldable pub get_fixed16 : Get ℕ
get_fixed16 src =
    if ltb (remaining src) 2
    then corruption "get_fixed16 overrun"
    else ok (get_fixed_loop 2 0 0 src.s src.pos, record src { pos = src.pos + 2 })

unfoldable pub get_fixed32 : Get ℕ
get_fixed32 src =
    if ltb (remaining src) 4
    then corruption "get_fixed32 overrun"
    else ok (get_fixed_loop 4 0 0 src.s src.pos, record src { pos = src.pos + 4 })

unfoldable pub get_fixed64 : Get ℕ
get_fixed64 src =
    if ltb (remaining src) 8
    then corruption "get_fixed64 overrun"
    else ok (get_fixed_loop 8 0 0 src.s src.pos, record src { pos = src.pos + 8 })

-- `pos_ = next - s_.data()`, where `next` lies `length next` bytes before the end.
abbrev pub moved : ByteSource → Result (ℕ × List ℕ) → Result (ℕ × ByteSource)
moved src (ok (v, next)) = ok (v, record src { pos = length src.s - length next })
moved src (fail e) = fail e

unfoldable pub get_varint64 : Get ℕ
get_varint64 src = moved src (decode_varint64 (drop src.pos src.s))

unfoldable pub get_varint32 : Get ℕ
get_varint32 = do
  tmp ← get_varint64
  reject_if (ltb 0xffff_ffff tmp) (corruption "varint32 overflow")
  pure tmp

unfoldable pub get_zigzag : Get ℕ
get_zigzag = do tmp ← get_varint64; pure (zigzag_decode tmp)

unfoldable pub get_bytes : ℕ → Get Slice
get_bytes n src =
    if ltb (remaining src) n
    then corruption "get_bytes overrun"
    else ok (subslice src.s src.pos n, record src { pos = src.pos + n })

-- `src.position()` and `src.slice_from(start, len)` inside a reader.
unfoldable pub get_position : Get ℕ
get_position src = ok (src.pos, src)

unfoldable pub get_slice_from : ℕ → ℕ → Get Slice
get_slice_from start len src = ok (slice_from src start len, src)

unfoldable pub get_eof : Get Bool
get_eof src = ok (eof src, src)

unfoldable pub get_remaining : Get ℕ
get_remaining src = ok (remaining src, src)

abbrev pub value_of : {A : Type 0} → Result (A × ByteSource) → Result A
value_of (ok (a, src)) = ok a
value_of (fail e) = fail e

-- The value of a reader that is run over a slice of its own.
unfoldable pub run_get : {A : Type 0} → Get A → Slice → Result A
run_get g s = value_of (g (source s))

-- `if (!ps.eof()) return e;` behind the last read of a slice.
abbrev pub ended : {A : Type 0} → Status → Result (A × ByteSource) → Result A
ended e (ok (a, src)) = if eof src then ok a else fail e
ended e (fail x) = fail x

unfoldable pub full_get : {A : Type 0} → Get A → Status → Slice → Result A
full_get g e s = ended e (g (source s))

-- `for (uint32_t i = 0; i < n; ++i)` around one read, the values pushed back in order.
unfoldable pub get_many : {A : Type 0} → ℕ → Get A → Get (List A)
get_many zero g = pure []
get_many (suc n) g = do a ← g; l ← get_many n g; pure (a ∷ l)
