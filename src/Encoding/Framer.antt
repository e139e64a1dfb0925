-- ===== src/Encoding/Framer.antt =====
-- core/include/snii/encoding/section_framer.h, core/src/encoding/section_framer.cpp
pub mod RoundTrip
pub mod Bounds
use snii.Common.{ℕ, ◌-◌, List, [], length, not, ◌==◌}
use snii.Common.Status.{corruption}
use snii.Encoding.Sink.{Put, ◌⨾◌, put_u8, put_varint64, put_bytes, put_fixed32}
use snii.Encoding.Source.{
  Slice, Get, ◌>>=◌, ◌>>◌, pure, reject_if, get_position, get_slice_from, get_u8, get_varint64,
  get_bytes, get_fixed32,
}
use snii.Encoding.Crc32c.{crc32c}

pub record FramedSection : Type 0 where
  pub section_type : ℕ
  pub payload : Slice

-- The temporary sink with type, length and payload.
unfoldable pub framed_view : ℕ → Slice → List ℕ
framed_view section_type payload =
    (put_u8 section_type ⨾ put_varint64 (length payload) ⨾ put_bytes payload) []

-- SectionFramer::write
unfoldable pub write_section : ℕ → Slice → Put
write_section section_type payload =
    let framed = framed_view section_type payload in put_bytes framed ⨾ put_fixed32 (crc32c framed)

-- SectionFramer::read
unfoldable pub read_section : Get FramedSection
read_section = do
  start ← get_position
  section_type ← get_u8
  len ← get_varint64
  payload ← get_bytes len
  now ← get_position
  stored ← get_fixed32
  framed ← get_slice_from start (now - start)
  reject_if (not (crc32c framed == stored)) (corruption "section crc mismatch")
  pure (record { section_type = section_type; payload = payload })
