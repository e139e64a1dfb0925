-- ===== src/Format/Bootstrap/RoundTrip.antt =====
-- encode_bootstrap_header and decode_bootstrap_header of core/src/format/bootstrap_header.cpp, together.
use snii.Common.{
  ℕ, ◌+◌, ◌*◌, ◌/◌, ◌%◌, ◌^◌, ◌<◌, ◌≤◌, ◌≡◌, refl, arith, List, [], ◌∷◌, ◌++◌, length,
  length-append, take-append, append_assoc, ==_self, bit_or, bit_and, le→ltb,
}
use snii.Common.Bits.{bit_or_low, bit_and_mask}
use snii.Common.Digits.{le_bytes, length-le_bytes}
use snii.Common.Status.{ok}
use snii.Encoding.Codec.{
  Writes, Writes-⨾, Reads, Reads->>=, Reads-last, Reads-reject, Reads-cast, Reads-pure_eq,
  run_get-Reads,
}
use snii.Encoding.Codec.Primitives.{
  Writes-put_fixed32, Writes-put_u8, Writes-put_bytes, Reads-get_fixed32, Reads-get_u8,
}
use snii.Encoding.Crc32c.{crc32c, crc32c-lt}
use snii.Encoding.Source.{subslice}
use snii.Format.Constants.{container_magic}
use snii.Format.Bootstrap.{
  BootstrapHeader, bootstrap_header_size, checksum_coverage, encode_fields, encode_bootstrap_header,
  get_bootstrap_header, decode_bootstrap_header,
}

-- The fields fit their types, the magic is that of a container, and this reader is new enough.
pub record IsReadable (header : BootstrapHeader) : Type 0 where
  pub magic : header.magic ≡ container_magic
  pub format_version : header.format_version < 2 ^ 16
  pub min_reader_version : header.min_reader_version ≤ 1
  pub flags : header.flags < 2 ^ 32
  pub header_length : header.header_length ≡ bootstrap_header_size

abbrev version_pair : BootstrapHeader → ℕ
version_pair h = bit_or (h.min_reader_version * 2 ^ 16 % 2 ^ 32) h.format_version

version_pair_sum :
    (h : BootstrapHeader)
    → IsReadable h
    → version_pair h ≡ h.min_reader_version * 2 ^ 16 + h.format_version
version_pair_sum h v =
    ground (arith, bit_or_low 16 h.min_reader_version h.format_version v.format_version)

version_of :
    (h : BootstrapHeader)
    → IsReadable h
    → bit_and (version_pair h) 0xFFFF % 2 ^ 16 ≡ h.format_version
version_of h v = rw (bit_and_mask 16 (version_pair h)) (omega (arith, version_pair_sum h v))

reader_of :
    (h : BootstrapHeader)
    → IsReadable h
    → bit_and (version_pair h / 2 ^ 16) 0xFFFF % 2 ^ 16 ≡ h.min_reader_version
reader_of h v = rw (bit_and_mask 16 (version_pair h / 2 ^ 16)) (omega (arith, version_pair_sum h v))

abbrev fields_bytes : BootstrapHeader → List ℕ
fields_bytes h =
    le_bytes 4 h.magic
    ++ (le_bytes 4 (version_pair h)
        ++ (le_bytes 4 h.flags ++ (le_bytes 4 bootstrap_header_size ++ (h.tail_pointer_size ∷ []))))

Writes-encode_fields : (h : BootstrapHeader) → Writes (encode_fields h) (fields_bytes h)
unfolding encode_fields
Writes-encode_fields h = Writes-⨾ (Writes-put_fixed32 _) (
    Writes-⨾ (Writes-put_fixed32 _)
      (Writes-⨾ (Writes-put_fixed32 _) (Writes-⨾ (Writes-put_fixed32 _) (Writes-put_u8 _))))

length-fields_bytes : (h : BootstrapHeader) → length (fields_bytes h) ≡ checksum_coverage
length-fields_bytes h = omega (arith, length-append {0}, length-le_bytes)

abbrev header_bytes : BootstrapHeader → List ℕ
header_bytes h = fields_bytes h ++ le_bytes 4 (crc32c (fields_bytes h))

pub Writes-encode_bootstrap_header :
    (h : BootstrapHeader) → Writes (encode_bootstrap_header h) (header_bytes h)
unfolding encode_bootstrap_header
Writes-encode_bootstrap_header h =
    rw ((Writes-encode_fields h).run [])
      (Writes-⨾ (Writes-put_bytes (fields_bytes h)) (Writes-put_fixed32 (crc32c (fields_bytes h))))

covered : (h : BootstrapHeader) → subslice (header_bytes h) 0 checksum_coverage ≡ fields_bytes h
covered h = rw (← length-fields_bytes h) (take-append (fields_bytes h) _)

Reads-get_bootstrap_header :
    (h : BootstrapHeader)
    → IsReadable h
    → Reads (get_bootstrap_header (header_bytes h)) (header_bytes h) h
unfolding get_bootstrap_header
Reads-get_bootstrap_header h v = Reads-cast layout (
    Reads->>= _ _ (Reads-get_fixed32 h.magic (omega (arith, v.magic))) (
      Reads->>= _ _ (Reads-get_fixed32 (version_pair h) (omega (arith, version_pair_sum h v))) (
        Reads->>= _ _ (Reads-get_fixed32 h.flags v.flags) (
          Reads->>= _ _ (Reads-get_fixed32 bootstrap_header_size (omega arith)) (
            Reads->>= _ _ (Reads-get_u8 h.tail_pointer_size) (
              Reads-last _ _
                (Reads-get_fixed32 (crc32c (fields_bytes h)) (crc32c-lt (fields_bytes h)))
                (Reads-reject _ (rw (v.magic) refl) (
                  Reads-reject _ (rw (covered h, ==_self) refl) (
                    Reads-reject _ (rw (reader_of h v) (le→ltb _ _ v.min_reader_version))
                      (Reads-pure_eq same))))))))))
  where
    layout :
        le_bytes 4 h.magic
          ++ (le_bytes 4 (version_pair h)
              ++ (le_bytes 4 h.flags
                  ++ (le_bytes 4 bootstrap_header_size
                      ++ ((h.tail_pointer_size ∷ []) ++ le_bytes 4 (crc32c (fields_bytes h))))))
        ≡ header_bytes h
    layout = simp append_assoc

    same :
        record {
          magic = h.magic;
          format_version = bit_and (version_pair h) 0xFFFF % 2 ^ 16;
          min_reader_version = bit_and (version_pair h / 2 ^ 16) 0xFFFF % 2 ^ 16;
          flags = h.flags;
          header_length = bootstrap_header_size;
          tail_pointer_size = h.tail_pointer_size;
        }
        ≡ h
    same = ground (arith, version_of h v, reader_of h v)

-- decode_bootstrap_header gives back the header that encode_bootstrap_header wrote, if this reader
-- can read it and its `header_length` is the derived one.
pub decode-encode_bootstrap_header :
    (h : BootstrapHeader)
    → IsReadable h
    → decode_bootstrap_header (encode_bootstrap_header h []) ≡ ok h
unfolding decode_bootstrap_header
decode-encode_bootstrap_header h v = rw (
  (Writes-encode_bootstrap_header h).run [],
  size,
  run_get-Reads (Reads-get_bootstrap_header h v),
)
  where
    size : length (header_bytes h) ≡ bootstrap_header_size
    size = omega (arith, length-append {0}, length-fields_bytes h, length-le_bytes)
