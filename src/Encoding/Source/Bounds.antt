-- ===== src/Encoding/Source/Bounds.antt =====
-- The reads of core/src/encoding/byte_source.cpp and the cursor, with one rule for each way to build a
-- reader.
use snii.Encoding.Source.{
  get_eof, get_remaining, get_position, get_slice_from, after, moved, ByteSource, Get, ◌>>=◌, ◌>>◌,
  pure, lift, reject_if, remaining, get_u8, get_fixed16, get_fixed32, get_fixed64, get_varint32,
  get_varint64, get_zigzag, get_bytes,
}
use snii.Common.{
  ℕ, ◌≤◌, ◌≡◌, refl, ◌∙◌, arith, List, length, drop, length-drop, if◌then◌else◌, Bool, true, false,
}
use snii.Common.Status.{Status, Result, ok, fail}
use snii.Encoding.Varint.{decode_varint64}
use snii.Encoding.Varint.Shape.{decode_varint64_takes}

abbrev pub InBounds : ByteSource → Type 0
InBounds src = src.pos ≤ length src.s

-- Whatever it returns, the slice is the same and the cursor has not moved back nor past the end.
pub record Stays {A : Type 0} (g : Get A) : Type 0 where
  pub run :
      (src : ByteSource) (a : A) (src' : ByteSource)
      → InBounds src
      → g src ≡ ok (a, src')
      → (src'.s ≡ src.s) × (src.pos ≤ src'.pos) × InBounds src'

pub Stays->>= :
    {A B : Type 0} {g : Get A} (f : A → Get B) → Stays g → ((a : A) → Stays (f a)) → Stays (g >>= f)
unfolding ◌>>=◌
Stays->>= {A} {B} {g} f sg sf = record { run = λ src b src' h e. go src b src' h (g src) refl e }
  where
    go :
        (src : ByteSource) (b : B) (src' : ByteSource)
        → InBounds src
        → (r : Result (A × ByteSource)) → g src ≡ r
        → after r f ≡ ok (b, src')
        → (src'.s ≡ src.s) × (src.pos ≤ src'.pos) × InBounds src'
    go src b src' h (fail x) eg e = cc
    go src b src' h (ok (a, mid)) eg e =
        let (same, fwd, within) = sg.run src a mid h eg in
        let (same', fwd', within') = (sf a).run mid b src' within e in
        (same' ∙ same, omega arith, within')

pub Stays->> : {B : Type 0} {g : Get (Unit {0})} {k : Get B} → Stays g → Stays k → Stays (g >> k)
unfolding ◌>>◌
Stays->> {k} sg sk = Stays->>= (λ _. k) sg (λ _. sk)

pub Stays-pure : {A : Type 0} (a : A) → Stays (pure a)
unfolding pure
Stays-pure a = record { run = λ src b src' h e. kept src a src' b h e }
  where
    kept :
        {A : Type 0} (src : ByteSource) (x : A) (src' : ByteSource) (y : A)
        → InBounds src
        → ◌≡◌ {A = Result (A × ByteSource)} (ok (x, src)) (ok (y, src'))
        → (src'.s ≡ src.s) × (src.pos ≤ src'.pos) × InBounds src'
    kept src x src' y h e = ground arith

pub Stays-reject_if : (b : Bool) (e : Status) → Stays (reject_if b (fail e))
unfolding reject_if
Stays-reject_if b e = record { run = λ src x src' h q. ground arith }

pub Stays-lift : {A : Type 0} (r : Result A) → Stays (lift r)
unfolding lift
Stays-lift (ok a) = record {
  run = λ src x src' h q. (Stays-pure a).run src x src' h (unfold pure in q);
}
Stays-lift (fail e) = record { run = λ src x src' h q. cc }

pub Stays-get_u8 : Stays get_u8
unfolding get_u8 remaining
Stays-get_u8 = record { run = λ src a src' h e. ground arith }

pub Stays-get_fixed16 : Stays get_fixed16
unfolding get_fixed16 remaining
Stays-get_fixed16 = record { run = λ src a src' h e. ground arith }

pub Stays-get_fixed32 : Stays get_fixed32
unfolding get_fixed32 remaining
Stays-get_fixed32 = record { run = λ src a src' h e. ground arith }

pub Stays-get_fixed64 : Stays get_fixed64
unfolding get_fixed64 remaining
Stays-get_fixed64 = record { run = λ src a src' h e. ground arith }

pub Stays-get_bytes : (n : ℕ) → Stays (get_bytes n)
unfolding get_bytes remaining
Stays-get_bytes n = record { run = λ src a src' h e. ground arith }

pub Stays-get_varint64 : Stays get_varint64
unfolding get_varint64
Stays-get_varint64 = record {
  run = λ src a src' h e. advance src a src' h (decode_varint64 (drop src.pos src.s)) refl e;
}
  where
    advance :
        (src : ByteSource) (a : ℕ) (src' : ByteSource)
        → InBounds src
        → (r : Result (ℕ × List ℕ)) → decode_varint64 (drop src.pos src.s) ≡ r
        → moved src r ≡ ok (a, src')
        → (src'.s ≡ src.s) × (src.pos ≤ src'.pos) × InBounds src'
    advance src a src' h (fail x) er e = cc
    advance src a src' h (ok (v, next)) er e =
        ground
          (arith, decode_varint64_takes (drop src.pos src.s) v next er, length-drop src.pos src.s)

pub Stays-get_position : Stays get_position
unfolding get_position
Stays-get_position = record { run = λ src a src' h e. ground arith }

pub Stays-get_slice_from : (start len : ℕ) → Stays (get_slice_from start len)
unfolding get_slice_from
Stays-get_slice_from start len = record { run = λ src a src' h e. ground arith }

pub Stays-get_eof : Stays get_eof
unfolding get_eof
Stays-get_eof = record { run = λ src a src' h e. ground arith }

pub Stays-get_remaining : Stays get_remaining
unfolding get_remaining
Stays-get_remaining = record { run = λ src a src' h e. ground arith }

pub Stays-if :
    {A : Type 0} (b : Bool) {g h : Get A} → Stays g → Stays h → Stays (if b then g else h)
Stays-if true sg sh = sg
Stays-if false sg sh = sh

pub ruleset reads_stay = (
  Stays->>=, Stays->>, Stays-pure, Stays-reject_if, Stays-lift, Stays-get_u8, Stays-get_fixed16,
  Stays-get_fixed32, Stays-get_fixed64, Stays-get_bytes, Stays-get_varint64, Stays-get_position,
  Stays-get_slice_from, Stays-get_eof, Stays-get_remaining,
)

pub Stays-get_varint32 : Stays get_varint32
unfolding get_varint32
Stays-get_varint32 = search reads_stay

pub Stays-get_zigzag : Stays get_zigzag
unfolding get_zigzag
Stays-get_zigzag = search reads_stay
