-- ===== src/Encoding/Tests.antt =====
-- Runs of the encodings of core/src/encoding at concrete inputs.
use snii.Common.{
  ◌+◌, ℕ, ◌^◌, ◌<◌, ◌≤◌, ◌≡◌, refl, arith, List, [], ◌∷◌, ◌++◌, length, All, ltb, leb,
  if◌then◌else◌, ◌*◌, ◌-◌,
}
use snii.Common.Digits.{IsByte}
use snii.Common.Status.{ok, corruption}
use snii.Encoding.Varint.{
  varint_len, encode_varint64, decode_varint64, decode_varint32, encode_varint_loop,
  decode_varint_loop,
}
use snii.Encoding.Varint.RoundTrip.{IsU64, decode_varint64-encode_varint64}
use snii.Encoding.Varint.Shape.{
  encode_varint64_shape, varint_len-length, decode_varint64_takes, decode_varint32-encode_varint64,
  decode_varint64_prefix,
}
use snii.Encoding.Zigzag.{
  zigzag_encode, zigzag_decode, zigzag_encode_lem, zigzag_decode-zigzag_encode,
}
use snii.Encoding.Codec.{Reads}
use snii.Encoding.Pfor.{choose_width, bits_for}
use snii.Encoding.Pfor.Width.{HasWidth, IsRun, IsLeastWidth, choose_width_lem, bits_for-HasWidth}
use snii.Encoding.Framer.{write_section, read_section}
use snii.Encoding.Framer.RoundTrip.{read_section-write_section}

abbrev behind : List ℕ
behind = 7 ∷ []

abbrev two_bytes : List ℕ
two_bytes = 0xac ∷ 0x02 ∷ []

encodes_300 : encode_varint64 300 ≡ two_bytes
unfolding encode_varint64 encode_varint_loop
encodes_300 = refl

decodes_300 : decode_varint64 (0xac ∷ 0x02 ∷ 7 ∷ []) ≡ ok (300, 7 ∷ [])
unfolding decode_varint64 decode_varint_loop
decodes_300 = refl

-- The tenth byte has room for one bit: the other bits that it holds are dropped without an error.
decodes_overlong :
    decode_varint64 (0x80 ∷ 0x80 ∷ 0x80 ∷ 0x80 ∷ 0x80 ∷ 0x80 ∷ 0x80 ∷ 0x80 ∷ 0x80 ∷ 0x02 ∷ [])
    ≡ ok (0, [])
unfolding decode_varint64 decode_varint_loop
decodes_overlong = refl

decode_varint64-encode_varint64_example :
    decode_varint64 (encode_varint64 300 ++ (7 ∷ [])) ≡ ok (300, 7 ∷ [])
decode_varint64-encode_varint64_example = decode_varint64-encode_varint64 300 (7 ∷ []) (omega arith)

encode_varint64_shape_example :
    All IsByte (encode_varint64 300)
    × (1 ≤ length (encode_varint64 300))
    × (length (encode_varint64 300) ≤ 10)
encode_varint64_shape_example = encode_varint64_shape 300 (omega arith)

varint_len-length_example : varint_len 300 ≡ length (encode_varint64 300)
varint_len-length_example = varint_len-length 300 (omega arith)

decode_varint64_takes_example :
    IsU64 300
    × (length behind < length (two_bytes ++ behind))
    × (length (two_bytes ++ behind) ≤ length behind + 10)
decode_varint64_takes_example = decode_varint64_takes (two_bytes ++ behind) 300 behind decodes_300

decode_varint32-encode_varint64_example : decode_varint32 (encode_varint64 0x1_0000_0000 ++ []) ≡ (
    if ltb 0xffff_ffff 0x1_0000_0000
    then corruption "varint32 overflow"
    else ok (0x1_0000_0000, []))
decode_varint32-encode_varint64_example =
    decode_varint32-encode_varint64 0x1_0000_0000 [] (omega arith)

decode_varint64_prefix_example : decode_varint64 (0xac ∷ []) ≡ corruption "varint truncated"
decode_varint64_prefix_example =
    decode_varint64_prefix 300 0x02 (0xac ∷ []) [] (omega arith) encodes_300

zigzag_encode_lem_example :
    zigzag_encode 5 ≡ (if leb (2 ^ 63) 5 then 2 * (2 ^ 64 - 5) - 1 else 2 * 5)
zigzag_encode_lem_example = zigzag_encode_lem 5 (omega arith)

zigzag_decode-zigzag_encode_example : zigzag_decode (zigzag_encode (2 ^ 64 - 3)) ≡ 2 ^ 64 - 3
zigzag_decode-zigzag_encode_example = zigzag_decode-zigzag_encode (2 ^ 64 - 3) (omega arith)

read_section-write_section_example :
    Reads read_section
      (write_section 4 two_bytes [])
      (record { section_type = 4; payload = two_bytes })
read_section-write_section_example = read_section-write_section 4 two_bytes (omega arith)

abbrev frequencies : List ℕ
frequencies = 1 ∷ 2 ∷ 1 ∷ 3 ∷ 1 ∷ 100_000 ∷ []

frequencies-IsRun : IsRun frequencies
frequencies-IsRun = (
  (omega arith, (omega arith, (omega arith, (omega arith, (omega arith, (omega arith, tt)))))),
  omega arith,
)

choose_width_lem_example : IsLeastWidth frequencies (choose_width frequencies)
choose_width_lem_example = choose_width_lem frequencies frequencies-IsRun

bits_for-HasWidth_example : HasWidth 100_000 (bits_for 100_000)
bits_for-HasWidth_example = bits_for-HasWidth 100_000 (omega arith)
