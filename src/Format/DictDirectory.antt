-- ===== src/Format/DictDirectory.antt =====
-- core/include/snii/format/dict_block_directory.h, core/src/format/dict_block_directory.cpp
pub mod RoundTrip
use snii.Common.{
  ℕ, ◌/◌, ◌%◌, ◌^◌, List, [], ◌∷◌, ◌++◌, length, ltb, ◌==◌, not, bit_and, get_elem?, if◌then◌else◌,
  Option, some, none,
}
use snii.Common.Status.{Result, ok, corruption, corrupt, invalid_argument, not_found}
use snii.Encoding.Sink.{
  Put, ◌⨾◌, put_nothing, put_many, put_u8, put_fixed32, put_varint32, put_varint64,
}
use snii.Encoding.Source.{
  Slice, Get, ◌>>=◌, ◌>>◌, pure, lift, reject_if, run_get, full_get, get_many, get_remaining,
  get_u8, get_fixed32, get_varint32, get_varint64,
}
use snii.Encoding.Framer.{write_section, read_section}
use snii.Format.Constants.{dict_block_directory_type}

pub record BlockRef : Type 0 where
  pub offset : ℕ
  pub length : ℕ
  pub n_entries : ℕ
  pub flags : ℕ
  pub checksum : ℕ
  pub uncomp_len : ℕ

-- block_ref_flags::kZstd
abbrev pub zstd_flag : ℕ
zstd_flag = 1

unfoldable pub encode_ref : BlockRef → Put
encode_ref ref =
    put_varint64 ref.offset
    ⨾ put_varint64 ref.length
    ⨾ put_varint32 ref.n_entries
    ⨾ put_u8 ref.flags
    ⨾ put_fixed32 ref.checksum
    ⨾ (if bit_and ref.flags zstd_flag == 0 then put_nothing else put_varint64 ref.uncomp_len)

unfoldable pub decode_ref : Get BlockRef
decode_ref = do
  offset ← get_varint64
  length ← get_varint64
  n_entries ← get_varint32
  flags ← get_u8
  checksum ← get_fixed32
  uncomp_len ← (if bit_and flags zstd_flag == 0 then pure 0 else get_varint64)
  pure (record {
    offset = offset;
    length = length;
    n_entries = n_entries;
    flags = flags;
    checksum = checksum;
    uncomp_len = uncomp_len;
  })

abbrev pub min_ref_bytes : ℕ
min_ref_bytes = 8

unfoldable pub get_refs : Get (List BlockRef)
get_refs = do
  n_blocks ← get_varint32
  left ← get_remaining
  reject_if (ltb (left / min_ref_bytes) n_blocks)
      (corruption "dict_block_directory: n_blocks exceeds payload capacity")
  get_many n_blocks decode_ref

unfoldable pub decode_payload : Slice → Result (List BlockRef)
decode_payload payload =
    full_get get_refs (corrupt "dict_block_directory: trailing bytes in payload") payload

-- DictBlockDirectoryBuilder
pub record Builder : Type 0 where
  pub refs : List BlockRef

unfoldable pub add : BlockRef → Builder → Builder
add ref b = record { refs = b.refs ++ (ref ∷ []) }

unfoldable pub finish : Builder → Put
finish b =
    write_section dict_block_directory_type
      ((put_varint32 (length b.refs % 2 ^ 32) ⨾ put_many encode_ref b.refs) [])

-- DictBlockDirectoryReader
pub record Reader : Type 0 where
  pub refs : List BlockRef

unfoldable pub get_section : Get Reader
get_section = do
  sec ← read_section
  reject_if (not (sec.section_type == dict_block_directory_type))
      (invalid_argument "dict_block_directory: unexpected section type")
  refs ← lift (decode_payload sec.payload)
  pure (record { refs = refs })

unfoldable pub open_directory : Slice → Result Reader
open_directory section = run_get get_section section

unfoldable pub n_blocks : Reader → ℕ
n_blocks r = length r.refs % 2 ^ 32

abbrev found_or : Option BlockRef → Result BlockRef
found_or (some ref) = ok ref
found_or none = not_found "dict_block_directory: ordinal out of range"

-- `ordinal >= refs_.size()` is the case where the list has no such element.
unfoldable pub get : Reader → ℕ → Result BlockRef
get r ordinal = found_or (get_elem? r.refs ordinal)
