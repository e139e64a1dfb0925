-- ===== src/Encoding/Framer/RoundTrip.antt =====
-- SectionFramer::write and SectionFramer::read of core/src/encoding/section_framer.cpp, together.
use snii.Common.{
  ◌≤◌, ◌-◌, length-append, ℕ, ◌+◌, ◌≡◌, refl, arith, List, [], ◌∷◌, ◌++◌, length, append_assoc,
  append-nil, ==_self,
}
use snii.Common.Digits.{le_bytes, length-le_bytes}
use snii.Encoding.Varint.Shape.{encode_varint64_ge_one}
use snii.Encoding.Varint.{encode_varint64}
use snii.Encoding.Varint.RoundTrip.{IsU64}
use snii.Encoding.Crc32c.{crc32c, crc32c-lt}
use snii.Encoding.Framer.{framed_view, write_section, read_section}
use snii.Encoding.Codec.{
  Writes, Writes-⨾, Reads, ReadsAt, ReadsAt->>=, Reads→ReadsAt, ReadsAt→Reads, ReadsAt-get_position,
  ReadsAt-get_slice_from, Reads-reject, Reads-pure,
}
use snii.Encoding.Codec.Primitives.{
  Writes-put_u8, Writes-put_varint64, Writes-put_bytes, Writes-put_fixed32, Reads-get_u8,
  Reads-get_varint64, Reads-get_bytes, Reads-get_fixed32,
}

-- The checked part of a section and the whole of it.
unfoldable pub section_body : ℕ → List ℕ → List ℕ
section_body t payload = t ∷ (encode_varint64 (length payload) ++ payload)

unfoldable pub section_bytes : ℕ → List ℕ → List ℕ
section_bytes t payload = section_body t payload ++ le_bytes 4 (crc32c (section_body t payload))

framed_view-section_body :
    (t : ℕ) (payload : List ℕ) → framed_view t payload ≡ section_body t payload
unfolding framed_view section_body
framed_view-section_body t payload =
    (Writes-⨾ (Writes-put_u8 t)
        (Writes-⨾ (Writes-put_varint64 (length payload)) (Writes-put_bytes payload))).run
      []

pub Writes-write_section :
    (t : ℕ) (payload : List ℕ) → Writes (write_section t payload) (section_bytes t payload)
unfolding write_section section_bytes
Writes-write_section t payload = rw (framed_view-section_body t payload) (
    Writes-⨾ (Writes-put_bytes (section_body t payload))
      (Writes-put_fixed32 (crc32c (section_body t payload))))

Reads-read_section_at :
    (t : ℕ) (payload front : List ℕ)
    → IsU64 (length payload)
    → ReadsAt front read_section
        (section_bytes t payload)
        (record { section_type = t; payload = payload })
unfolding read_section
Reads-read_section_at t payload front h = rw layout (
    ReadsAt-get_position _ (
      ReadsAt->>= _ t (Reads→ReadsAt _ (Reads-get_u8 t)) (
        ReadsAt->>= _ (length payload) (Reads→ReadsAt _ (Reads-get_varint64 (length payload) h)) (
          ReadsAt->>= _ payload (Reads→ReadsAt _ (Reads-get_bytes payload)) (
            ReadsAt-get_position _ (
              ReadsAt->>= _ (crc32c body)
                (Reads→ReadsAt _ (Reads-get_fixed32 (crc32c body) (crc32c-lt body)))
                (ReadsAt-get_slice_from front body (le_bytes 4 (crc32c body)) _ _ together size
                  (Reads→ReadsAt _ (Reads-reject _ (rw ==_self refl) (Reads-pure _))))))))))
  where
    body : List ℕ
    body = section_body t payload

    enc : List ℕ
    enc = encode_varint64 (length payload)

    stored : List ℕ
    stored = le_bytes 4 (crc32c body)

    layout : section_bytes t payload ≡ (t ∷ []) ++ (enc ++ (payload ++ (stored ++ [])))
    layout = unfold section_bytes section_body in simp (append_assoc, append-nil)

    together : (((front ++ (t ∷ [])) ++ enc) ++ payload) ++ stored ≡ front ++ (body ++ stored)
    together = unfold section_body in simp append_assoc

    size : length (((front ++ (t ∷ [])) ++ enc) ++ payload) - length front ≡ length body
    size =
        unfold section_body in
        omega (
          arith,
          length-append ((front ++ (t ∷ [])) ++ enc) payload,
          length-append (front ++ (t ∷ [])) enc,
          length-append front (t ∷ []),
          length-append enc payload,
        )

pub Reads-read_section :
    (t : ℕ) (payload : List ℕ)
    → IsU64 (length payload)
    → Reads read_section (section_bytes t payload) (record { section_type = t; payload = payload })
Reads-read_section t payload h = ReadsAt→Reads (λ front. Reads-read_section_at t payload front h)

pub length-section_body :
    (t : ℕ) (payload : List ℕ)
    → length (section_body t payload)
      ≡ 1 + length (encode_varint64 (length payload)) + length payload
unfolding section_body
length-section_body t payload = omega (arith, length-append {0})

pub length-section_bytes :
    (t : ℕ) (payload : List ℕ) → length payload + 6 ≤ length (section_bytes t payload)
unfolding section_bytes
length-section_bytes t payload = omega (
  arith,
  length-append (section_body t payload) (le_bytes 4 (crc32c (section_body t payload))),
  length-section_body t payload,
  length-le_bytes,
  encode_varint64_ge_one (length payload),
)

-- SectionFramer::read returns the type and the payload of a section that SectionFramer::write
-- wrote, whatever stands before and behind it, if the payload's size is a uint64.
pub read_section-write_section :
    (t : ℕ) (payload : List ℕ)
    → IsU64 (length payload)
    → Reads read_section
        (write_section t payload [])
        (record { section_type = t; payload = payload })
read_section-write_section t payload h =
    rw ((Writes-write_section t payload).run []) (Reads-read_section t payload h)
