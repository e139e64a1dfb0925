-- ===== src/Format/IndexDirectory.antt =====
-- core/include/snii/format/logical_index_directory.h, core/src/format/logical_index_directory.cpp
-- A suffix is the list of its bytes.
pub mod RoundTrip
pub mod Find
use snii.Common.{
  ℕ, ◌/◌, ◌%◌, ◌^◌, Bool, true, false, List, [], ◌∷◌, ◌++◌, length, ltb, ◌==◌, ◌&&◌, not, get_elem?,
  if◌then◌else◌, Option, some, none, bytes_eq,
}
use snii.Common.Status.{Result, ok, corruption, corrupt, invalid_argument, not_found}
use snii.Encoding.Sink.{Put, ◌⨾◌, put_many, put_bytes, put_varint32, put_varint64}
use snii.Encoding.Source.{
  Slice, Get, ◌>>=◌, ◌>>◌, pure, lift, reject_if, run_get, full_get, get_many, get_remaining,
  get_bytes, get_varint32, get_varint64,
}
use snii.Encoding.Framer.{write_section, read_section}
use snii.Format.Constants.{logical_index_directory_type}

pub record LogicalIndexRef : Type 0 where
  pub index_id : ℕ
  pub index_suffix : List ℕ
  pub meta_off : ℕ
  pub meta_len : ℕ

abbrev pub min_entry_bytes : ℕ
min_entry_bytes = 4

unfoldable pub encode_entry : LogicalIndexRef → Put
encode_entry ref =
    put_varint64 ref.index_id
    ⨾ put_varint32 (length ref.index_suffix % 2 ^ 32)
    ⨾ put_bytes ref.index_suffix
    ⨾ put_varint64 ref.meta_off
    ⨾ put_varint64 ref.meta_len

unfoldable pub decode_entry : Get LogicalIndexRef
decode_entry = do
  index_id ← get_varint64
  suffix_len ← get_varint32
  left ← get_remaining
  reject_if (ltb left suffix_len) (corruption "logical_index_directory: suffix_len exceeds payload")
  suffix ← get_bytes suffix_len
  meta_off ← get_varint64
  meta_len ← get_varint64
  pure (record {
    index_id = index_id;
    index_suffix = suffix;
    meta_off = meta_off;
    meta_len = meta_len;
  })

unfoldable pub get_entries : Get (List LogicalIndexRef)
get_entries = do
  n_entries ← get_varint32
  left ← get_remaining
  reject_if (ltb (left / min_entry_bytes) n_entries)
      (corruption "logical_index_directory: n_entries exceeds payload capacity")
  get_many n_entries decode_entry

unfoldable pub decode_payload : Slice → Result (List LogicalIndexRef)
decode_payload payload =
    full_get get_entries (corrupt "logical_index_directory: trailing bytes in payload") payload

-- LogicalIndexDirectoryBuilder
pub record Builder : Type 0 where
  pub refs : List LogicalIndexRef

unfoldable pub add : LogicalIndexRef → Builder → Builder
add ref b = record { refs = b.refs ++ (ref ∷ []) }

unfoldable pub finish : Builder → Put
finish b =
    write_section logical_index_directory_type
      ((put_varint32 (length b.refs % 2 ^ 32) ⨾ put_many encode_entry b.refs) [])

-- LogicalIndexDirectoryReader
pub record Reader : Type 0 where
  pub refs : List LogicalIndexRef

unfoldable pub get_section : Get Reader
get_section = do
  sec ← read_section
  reject_if (not (sec.section_type == logical_index_directory_type))
      (invalid_argument "logical_index_directory: unexpected section type")
  refs ← lift (decode_payload sec.payload)
  pure (record { refs = refs })

unfoldable pub open_directory : Slice → Result Reader
open_directory framed = run_get get_section framed

unfoldable pub size : Reader → ℕ
size r = length r.refs % 2 ^ 32

abbrev found_or : Option LogicalIndexRef → Result LogicalIndexRef
found_or (some ref) = ok ref
found_or none = not_found "logical_index_directory: index out of range"

unfoldable pub get : Reader → ℕ → Result LogicalIndexRef
get r i = found_or (get_elem? r.refs i)

-- The loop of find: `none` is `*found = false`.
unfoldable pub find_loop : List LogicalIndexRef → ℕ → List ℕ → Option LogicalIndexRef
find_loop [] index_id suffix = none
find_loop (ref ∷ refs) index_id suffix =
    let rest = find_loop refs index_id suffix in
    if (ref.index_id == index_id) && bytes_eq ref.index_suffix suffix then some ref else rest

unfoldable pub find : Reader → ℕ → List ℕ → Option LogicalIndexRef
find r index_id suffix = find_loop r.refs index_id suffix
