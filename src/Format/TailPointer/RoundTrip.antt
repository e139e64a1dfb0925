-- ===== src/Format/TailPointer/RoundTrip.antt =====
-- encode_tail_pointer and decode_tail_pointer of core/src/format/tail_pointer.cpp, together.
use snii.Common.{
  ℕ, ◌≡◌, refl, arith, List, [], ◌∷◌, ◌++◌, length, length-append, take-append, append_assoc,
  ==_self,
}
use snii.Common.Digits.{le_bytes, length-le_bytes}
use snii.Common.Status.{ok}
use snii.Encoding.Codec.{
  Writes, Writes-⨾, Reads, Reads->>=, Reads-last, Reads-reject, Reads-cast, Reads-pure,
  run_get-Reads,
}
use snii.Encoding.Codec.Primitives.{
  Writes-put_fixed16, Writes-put_fixed32, Writes-put_fixed64, Writes-put_u8, Writes-put_bytes,
  Reads-get_fixed16, Reads-get_fixed32, Reads-get_fixed64, Reads-get_u8,
}
use snii.Encoding.Varint.RoundTrip.{IsU64, IsU32}
use snii.Encoding.Crc32c.{crc32c, crc32c-lt}
use snii.Encoding.Source.{subslice}
use snii.Format.Constants.{tail_magic, format_version}
use snii.Format.TailPointer.{
  TailPointer, fixed_size, checksum_coverage, tail_pointer_size, serialize_covered,
  encode_tail_pointer, get_tail_pointer, decode_tail_pointer,
}

pub record IsTailPointer (tp : TailPointer) : Type 0 where
  pub meta_region_offset : IsU64 tp.meta_region_offset
  pub meta_region_length : IsU64 tp.meta_region_length
  pub hot_off : IsU64 tp.hot_off
  pub meta_region_checksum : IsU32 tp.meta_region_checksum
  pub bootstrap_header_checksum : IsU32 tp.bootstrap_header_checksum

abbrev covered_bytes : TailPointer → List ℕ
covered_bytes tp =
    le_bytes 4 tail_magic
    ++ (le_bytes 2 format_version
        ++ (le_bytes 8 tp.meta_region_offset
            ++ (le_bytes 8 tp.meta_region_length
                ++ (le_bytes 8 tp.hot_off
                    ++ (le_bytes 4 tp.meta_region_checksum
                        ++ (le_bytes 4 tp.bootstrap_header_checksum ++ (fixed_size ∷ [])))))))

Writes-serialize_covered : (tp : TailPointer) → Writes (serialize_covered tp) (covered_bytes tp)
unfolding serialize_covered
Writes-serialize_covered tp = Writes-⨾ (Writes-put_fixed32 _) (
    Writes-⨾ (Writes-put_fixed16 _) (
      Writes-⨾ (Writes-put_fixed64 _) (
        Writes-⨾ (Writes-put_fixed64 _) (
          Writes-⨾ (Writes-put_fixed64 _) (
            Writes-⨾ (Writes-put_fixed32 _) (Writes-⨾ (Writes-put_fixed32 _) (Writes-put_u8 _)))))))

length-covered_bytes : (tp : TailPointer) → length (covered_bytes tp) ≡ checksum_coverage
length-covered_bytes tp = omega (arith, length-append {0}, length-le_bytes)

abbrev pub tail_pointer_bytes : TailPointer → List ℕ
tail_pointer_bytes tp = covered_bytes tp ++ le_bytes 4 (crc32c (covered_bytes tp))

length-tail_pointer_bytes : (tp : TailPointer) → length (tail_pointer_bytes tp) ≡ fixed_size
length-tail_pointer_bytes tp =
    omega (arith, length-append {0}, length-covered_bytes tp, length-le_bytes)

covered :
    (tp : TailPointer) → subslice (tail_pointer_bytes tp) 0 checksum_coverage ≡ covered_bytes tp
covered tp = rw (← length-covered_bytes tp) (take-append (covered_bytes tp) _)

encode_tail_pointer_bytes :
    (tp : TailPointer) (sink : List ℕ)
    → encode_tail_pointer tp sink ≡ ok (sink ++ tail_pointer_bytes tp)
unfolding encode_tail_pointer
encode_tail_pointer_bytes tp sink =
    rw ((Writes-serialize_covered tp).run [], length-covered_bytes tp)
      (rw
        ((Writes-⨾ (Writes-put_bytes (covered_bytes tp))
            (Writes-put_fixed32 (crc32c (covered_bytes tp)))).run
          sink)
        refl)

Reads-get_tail_pointer :
    (tp : TailPointer)
    → IsTailPointer tp
    → Reads (get_tail_pointer (tail_pointer_bytes tp)) (tail_pointer_bytes tp) tp
unfolding get_tail_pointer
Reads-get_tail_pointer tp v = Reads-cast layout (
    Reads->>= _ _ (Reads-get_fixed32 tail_magic (omega arith)) (
      Reads-reject _ refl (
        Reads->>= _ _ (Reads-get_fixed16 format_version (omega arith)) (
          Reads->>= _ _ (Reads-get_fixed64 _ v.meta_region_offset) (
            Reads->>= _ _ (Reads-get_fixed64 _ v.meta_region_length) (
              Reads->>= _ _ (Reads-get_fixed64 _ v.hot_off) (
                Reads->>= _ _ (Reads-get_fixed32 _ v.meta_region_checksum) (
                  Reads->>= _ _ (Reads-get_fixed32 _ v.bootstrap_header_checksum) (
                    Reads->>= _ _ (Reads-get_u8 fixed_size) (
                      Reads-reject _ refl (
                        Reads-last _ _
                          (Reads-get_fixed32 (crc32c (covered_bytes tp))
                            (crc32c-lt (covered_bytes tp)))
                          (Reads-reject _ (rw (covered tp, ==_self) refl)
                            (Reads-pure tp)))))))))))))
  where
    layout :
        le_bytes 4 tail_magic
          ++ (le_bytes 2 format_version
              ++ (le_bytes 8 tp.meta_region_offset
                  ++ (le_bytes 8 tp.meta_region_length
                      ++ (le_bytes 8 tp.hot_off
                          ++ (le_bytes 4 tp.meta_region_checksum
                              ++ (le_bytes 4 tp.bootstrap_header_checksum
                                  ++ ((fixed_size ∷ [])
                                      ++ le_bytes 4 (crc32c (covered_bytes tp)))))))))
        ≡ tail_pointer_bytes tp
    layout = simp append_assoc

-- encode_tail_pointer appends tail_pointer_size() bytes to the sink, never failing, and
-- decode_tail_pointer over just those bytes gives the tail pointer back, if its fields fit their
-- types.
pub decode-encode_tail_pointer :
    (tp : TailPointer) (sink : List ℕ)
    → IsTailPointer tp
    → (footer : List ℕ) × (encode_tail_pointer tp sink ≡ ok (sink ++ footer))
      × (length footer ≡ tail_pointer_size)
      × (decode_tail_pointer footer ≡ ok tp)
unfolding decode_tail_pointer tail_pointer_size
decode-encode_tail_pointer tp sink v = (
  tail_pointer_bytes tp,
  encode_tail_pointer_bytes tp sink,
  length-tail_pointer_bytes tp,
  rw (length-tail_pointer_bytes tp, run_get-Reads (Reads-get_tail_pointer tp v)),
)
