-- ===== src/Format/DictDirectory/RoundTrip.antt =====
-- DictBlockDirectoryBuilder::finish and DictBlockDirectoryReader::open of
-- core/src/format/dict_block_directory.cpp, together.
use snii.Common.{
  ℕ, ◌/◌, ◌%◌, ◌^◌, ◌≤◌, ◌≡◌, refl, arith, Bool, true, false, List, [], ◌∷◌, ◌++◌, length,
  length-append, All, le→ltb, ◌==◌, bit_and, if◌then◌else◌,
}
use snii.Common.Digits.{le_bytes, length-le_bytes}
use snii.Common.Status.{ok}
use snii.Encoding.Varint.{encode_varint64}
use snii.Encoding.Varint.RoundTrip.{IsU64, IsU32}
use snii.Encoding.Varint.Shape.{encode_varint64_ge_one, encode_varint64_shape}
use snii.Encoding.Codec.{
  Writes, Writes-⨾, Writes-nothing, Reads, Reads->>=, Reads-last, Reads-reject, Reads-pure,
  Reads-pure_eq, run_get-Reads,
}
use snii.Encoding.Codec.Primitives.{
  Writes-put_varint64, Writes-put_varint32, Writes-put_u8, Writes-put_fixed32, Reads-get_varint64,
  Reads-get_varint32, Reads-get_u8, Reads-get_fixed32,
}
use snii.Encoding.Codec.Many.{
  length-concat_map_le, concat_map, Writes-put_many, Reads-get_many, length-concat_map_ge,
  Reads-get_remaining, Reads-lift, full_get-Reads,
}
use snii.Encoding.Source.{pure, get_varint64}
use snii.Encoding.Sink.{put_nothing, put_varint64}
use snii.Encoding.Framer.RoundTrip.{section_bytes, Writes-write_section, Reads-read_section}
use snii.Format.Constants.{dict_block_directory_type}
use snii.Format.DictDirectory.{
  BlockRef, zstd_flag, encode_ref, decode_ref, get_refs, decode_payload, Builder, finish,
  get_section, open_directory, min_ref_bytes,
}

-- The fields fit their types, and `uncomp_len` is 0 where it is not stored.
pub record IsBlockRef (ref : BlockRef) : Type 0 where
  pub offset : IsU64 ref.offset
  pub len : IsU64 ref.length
  pub n_entries : IsU32 ref.n_entries
  pub checksum : IsU32 ref.checksum
  pub uncomp_len : IsU64 ref.uncomp_len
  pub unstored : (bit_and ref.flags zstd_flag == 0) ≡ true → ref.uncomp_len ≡ 0

abbrev is_plain : BlockRef → Bool
is_plain ref = bit_and ref.flags zstd_flag == 0

abbrev tail_bytes : BlockRef → List ℕ
tail_bytes ref = if is_plain ref then [] else encode_varint64 ref.uncomp_len

abbrev pub ref_bytes : BlockRef → List ℕ
ref_bytes ref =
    encode_varint64 ref.offset
    ++ (encode_varint64 ref.length
        ++ (encode_varint64 ref.n_entries
            ++ ((ref.flags ∷ []) ++ (le_bytes 4 ref.checksum ++ tail_bytes ref))))

Writes-tail :
    (b : Bool) (v : ℕ)
    → Writes (if b then put_nothing else put_varint64 v) (if b then [] else encode_varint64 v)
Writes-tail true v = Writes-nothing
Writes-tail false v = Writes-put_varint64 v

Reads-tail :
    (b : Bool) (v : ℕ)
    → IsU64 v
    → (b ≡ true → v ≡ 0)
    → Reads (if b then pure 0 else get_varint64) (if b then [] else encode_varint64 v) v
Reads-tail true v h z = Reads-pure_eq (omega (arith, z refl))
Reads-tail false v h z = Reads-get_varint64 v h

Writes-encode_ref : (ref : BlockRef) → Writes (encode_ref ref) (ref_bytes ref)
unfolding encode_ref
Writes-encode_ref ref = Writes-⨾ (Writes-put_varint64 _) (
    Writes-⨾ (Writes-put_varint64 _) (
      Writes-⨾ (Writes-put_varint32 _) (
        Writes-⨾ (Writes-put_u8 _)
          (Writes-⨾ (Writes-put_fixed32 _) (Writes-tail (is_plain ref) ref.uncomp_len)))))

Reads-decode_ref : (ref : BlockRef) → IsBlockRef ref → Reads decode_ref (ref_bytes ref) ref
unfolding decode_ref
Reads-decode_ref ref v = Reads->>= _ _ (Reads-get_varint64 _ v.offset) (
    Reads->>= _ _ (Reads-get_varint64 _ v.len) (
      Reads->>= _ _ (Reads-get_varint32 _ v.n_entries) (
        Reads->>= _ _ (Reads-get_u8 ref.flags) (
          Reads->>= _ _ (Reads-get_fixed32 _ v.checksum) (
            Reads-last _ _ (Reads-tail (is_plain ref) ref.uncomp_len v.uncomp_len v.unstored)
              (Reads-pure ref))))))

length-ref_bytes : (ref : BlockRef) → min_ref_bytes ≤ length (ref_bytes ref)
length-ref_bytes ref = omega (arith, length-append {0}, encode_varint64_ge_one, length-le_bytes)

abbrev payload_bytes : List BlockRef → List ℕ
payload_bytes refs = encode_varint64 (length refs) ++ concat_map ref_bytes refs

Reads-get_refs :
    (refs : List BlockRef)
    → IsU32 (length refs)
    → All IsBlockRef refs
    → Reads get_refs (payload_bytes refs) refs
unfolding get_refs
Reads-get_refs refs h v = Reads->>= _ (length refs) (Reads-get_varint32 (length refs) h) (
    Reads-get_remaining _ λ m le.
      Reads-reject _
        (le→ltb (m / min_ref_bytes) (length refs)
          (omega (arith, length-concat_map_ge ref_bytes min_ref_bytes length-ref_bytes refs)))
        (Reads-get_many ref_bytes decode_ref IsBlockRef Reads-decode_ref refs v))

finish_bytes :
    (b : Builder)
    → IsU32 (length b.refs)
    → finish b [] ≡ section_bytes dict_block_directory_type (payload_bytes b.refs)
unfolding finish
finish_bytes b h =
    rw
      (
        small,
        (Writes-⨾ (Writes-put_varint32 (length b.refs))
              (Writes-put_many ref_bytes encode_ref Writes-encode_ref b.refs)).run
            [],
      )
      ((Writes-write_section dict_block_directory_type (payload_bytes b.refs)).run [])
  where
    small : length b.refs % 2 ^ 32 ≡ length b.refs
    small = omega arith

length-tail : (b : Bool) (v : ℕ) → IsU64 v → length (if b then [] else encode_varint64 v) ≤ 10
length-tail true v h = omega arith
length-tail false v h = (encode_varint64_shape v h).2

length-ref_bytes_le : (ref : BlockRef) → IsBlockRef ref → length (ref_bytes ref) ≤ 45
length-ref_bytes_le ref v = omega (
  arith,
  length-append {0},
  length-le_bytes,
  (encode_varint64_shape ref.offset v.offset).2,
  (encode_varint64_shape ref.length v.len).2,
  (encode_varint64_shape ref.n_entries (omega (arith, v.n_entries))).2,
  length-tail (is_plain ref) ref.uncomp_len v.uncomp_len,
)

length-payload_bytes :
    (refs : List BlockRef)
    → IsU32 (length refs)
    → All IsBlockRef refs
    → IsU64 (length (payload_bytes refs))
length-payload_bytes refs h v = omega (
  arith,
  length-append (encode_varint64 (length refs)) (concat_map ref_bytes refs),
  length-concat_map_le ref_bytes 45 IsBlockRef length-ref_bytes_le refs v,
  (encode_varint64_shape (length refs) (omega arith)).2,
)

decode_payload_bytes :
    (refs : List BlockRef)
    → IsU32 (length refs)
    → All IsBlockRef refs
    → decode_payload (payload_bytes refs) ≡ ok refs
unfolding decode_payload
decode_payload_bytes refs h v = full_get-Reads _ (Reads-get_refs refs h v)

-- DictBlockDirectoryReader::open over what DictBlockDirectoryBuilder::finish wrote gives the
-- builder's references in order, if they are fewer than 2 ^ 32, their fields fit their types and
-- `uncomp_len` is 0 wherever kZstd is not set.
pub open_block_directory-finish :
    (b : Builder)
    → IsU32 (length b.refs)
    → All IsBlockRef b.refs
    → open_directory (finish b []) ≡ ok (record { refs = b.refs })
unfolding open_directory
open_block_directory-finish b h v = rw (finish_bytes b h) (run_get-Reads section)
  where
    section :
        Reads get_section
          (section_bytes dict_block_directory_type (payload_bytes b.refs))
          (record { refs = b.refs })
    section =
        unfold get_section in
        Reads-last _ _
          (Reads-read_section dict_block_directory_type (payload_bytes b.refs)
            (length-payload_bytes b.refs h v))
          (Reads-reject _ refl
            (Reads-last _ _ (Reads-lift (decode_payload_bytes b.refs h v)) (Reads-pure _)))
