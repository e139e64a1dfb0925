-- ===== src/Format/IndexDirectory/RoundTrip.antt =====
-- LogicalIndexDirectoryBuilder::finish and LogicalIndexDirectoryReader::open of
-- core/src/format/logical_index_directory.cpp, together.
use snii.Common.{
  ℕ, ◌/◌, ◌%◌, ◌^◌, ◌≤◌, ◌≡◌, refl, arith, List, [], ◌++◌, length, length-append, All, le→ltb,
}
use snii.Common.Status.{ok}
use snii.Encoding.Varint.{encode_varint64}
use snii.Encoding.Varint.RoundTrip.{IsU64, IsU32}
use snii.Encoding.Varint.Shape.{encode_varint64_ge_one}
use snii.Encoding.Codec.{
  Writes, Writes-⨾, Reads, Reads->>=, Reads-last, Reads-reject, Reads-pure, run_get-Reads,
}
use snii.Encoding.Codec.Primitives.{
  Writes-put_varint64, Writes-put_varint32, Writes-put_bytes, Reads-get_varint64,
  Reads-get_varint32, Reads-get_bytes,
}
use snii.Encoding.Codec.Many.{
  concat_map, Writes-put_many, Reads-get_many, length-concat_map_ge, Reads-get_remaining,
  Reads-lift, full_get-Reads,
}
use snii.Encoding.Framer.RoundTrip.{
  section_bytes, length-section_bytes, Writes-write_section, Reads-read_section,
}
use snii.Format.Constants.{logical_index_directory_type}
use snii.Format.IndexDirectory.{
  LogicalIndexRef, encode_entry, decode_entry, get_entries, decode_payload, Builder, finish,
  get_section, open_directory, min_entry_bytes,
}

pub record IsIndexRef (ref : LogicalIndexRef) : Type 0 where
  pub index_id : IsU64 ref.index_id
  pub suffix_len : IsU32 (length ref.index_suffix)
  pub meta_off : IsU64 ref.meta_off
  pub meta_len : IsU64 ref.meta_len

abbrev entry_bytes : LogicalIndexRef → List ℕ
entry_bytes ref =
    encode_varint64 ref.index_id
    ++ (encode_varint64 (length ref.index_suffix % 2 ^ 32)
        ++ (ref.index_suffix ++ (encode_varint64 ref.meta_off ++ encode_varint64 ref.meta_len)))

Writes-encode_entry : (ref : LogicalIndexRef) → Writes (encode_entry ref) (entry_bytes ref)
unfolding encode_entry
Writes-encode_entry ref = Writes-⨾ (Writes-put_varint64 _) (
    Writes-⨾ (Writes-put_varint32 _)
      (Writes-⨾ (Writes-put_bytes _) (Writes-⨾ (Writes-put_varint64 _) (Writes-put_varint64 _))))

Reads-decode_entry :
    (ref : LogicalIndexRef) → IsIndexRef ref → Reads decode_entry (entry_bytes ref) ref
unfolding decode_entry
Reads-decode_entry ref v = rw small (
    Reads->>= _ _ (Reads-get_varint64 _ v.index_id) (
      Reads->>= _ _ (Reads-get_varint32 _ v.suffix_len) (
        Reads-get_remaining _ λ m le.
          Reads-reject _ (le→ltb m (length ref.index_suffix) (omega (arith, length-append {0}))) (
            Reads->>= _ _ (Reads-get_bytes ref.index_suffix) (
              Reads->>= _ _ (Reads-get_varint64 _ v.meta_off)
                (Reads-last _ _ (Reads-get_varint64 _ v.meta_len) (Reads-pure ref)))))))
  where
    small : length ref.index_suffix % 2 ^ 32 ≡ length ref.index_suffix
    small = omega (arith, v.suffix_len)

length-entry_bytes : (ref : LogicalIndexRef) → min_entry_bytes ≤ length (entry_bytes ref)
length-entry_bytes ref = omega (arith, length-append {0}, encode_varint64_ge_one)

abbrev payload_bytes : List LogicalIndexRef → List ℕ
payload_bytes refs = encode_varint64 (length refs) ++ concat_map entry_bytes refs

Reads-get_entries :
    (refs : List LogicalIndexRef)
    → IsU32 (length refs)
    → All IsIndexRef refs
    → Reads get_entries (payload_bytes refs) refs
unfolding get_entries
Reads-get_entries refs h v = Reads->>= _ (length refs) (Reads-get_varint32 (length refs) h) (
    Reads-get_remaining _ λ m le.
      Reads-reject _
        (le→ltb (m / min_entry_bytes) (length refs)
          (omega (arith, length-concat_map_ge entry_bytes min_entry_bytes length-entry_bytes refs)))
        (Reads-get_many entry_bytes decode_entry IsIndexRef Reads-decode_entry refs v))

decode_payload_bytes :
    (refs : List LogicalIndexRef)
    → IsU32 (length refs)
    → All IsIndexRef refs
    → decode_payload (payload_bytes refs) ≡ ok refs
unfolding decode_payload
decode_payload_bytes refs h v = full_get-Reads _ (Reads-get_entries refs h v)

finish_bytes :
    (b : Builder)
    → IsU32 (length b.refs)
    → finish b [] ≡ section_bytes logical_index_directory_type (payload_bytes b.refs)
unfolding finish
finish_bytes b h =
    rw
      (
        small,
        (Writes-⨾ (Writes-put_varint32 (length b.refs))
              (Writes-put_many entry_bytes encode_entry Writes-encode_entry b.refs)).run
            [],
      )
      ((Writes-write_section logical_index_directory_type (payload_bytes b.refs)).run [])
  where
    small : length b.refs % 2 ^ 32 ≡ length b.refs
    small = omega arith

-- LogicalIndexDirectoryReader::open over what LogicalIndexDirectoryBuilder::finish wrote gives the
-- builder's entries in order, if they are fewer than 2 ^ 32, their fields and the lengths of their
-- suffixes fit their types, and the section's size fits 64 bits.
pub open_index_directory-finish :
    (b : Builder)
    → IsU32 (length b.refs)
    → All IsIndexRef b.refs
    → IsU64 (length (finish b []))
    → open_directory (finish b []) ≡ ok (record { refs = b.refs })
unfolding open_directory
open_index_directory-finish b h v size = rw (finish_bytes b h) (run_get-Reads section)
  where
    payload_size : IsU64 (length (payload_bytes b.refs))
    payload_size =
        let whole : IsU64
            (length (section_bytes logical_index_directory_type (payload_bytes b.refs))) =
          rw (finish_bytes b h) at size in
        omega (arith, length-section_bytes logical_index_directory_type (payload_bytes b.refs))

    section :
        Reads get_section
          (section_bytes logical_index_directory_type (payload_bytes b.refs))
          (record { refs = b.refs })
    section =
        unfold get_section in
        Reads-last _ _
          (Reads-read_section logical_index_directory_type (payload_bytes b.refs) payload_size)
          (Reads-reject _ refl
            (Reads-last _ _ (Reads-lift (decode_payload_bytes b.refs h v)) (Reads-pure _)))
