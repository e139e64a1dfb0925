-- ===== src/Format/TailMeta.antt =====
-- core/include/snii/format/tail_meta_region.h, core/src/format/tail_meta_region.cpp
-- A std::string suffix is the list of its bytes; the null check on `out` has no counterpart.
pub mod Header
pub mod Checks
pub mod Layout
pub mod RoundTrip
use snii.Common.{
  ℕ, ◌+◌, ◌-◌, ◌%◌, ◌^◌, List, [], ◌∷◌, ◌++◌, Option, some, none, length, ltb, ◌==◌, ◌||◌, not,
  if◌then◌else◌,
}
use snii.Common.Status.{Result, ok, corruption, unsupported, fail_if, ◌>>=◌, ◌>>◌}
use snii.Encoding.Sink.{Put, ◌⨾◌, put_fixed32, put_bytes, put_many}
use snii.Encoding.Source.{Slice, subslice, run_get, get_fixed32}
use snii.Encoding.Crc32c.{crc32c}
use snii.Format.Constants.{meta_format_version}
use snii.Format.IndexDirectory
use snii.Format.IndexDirectory.{LogicalIndexRef, open_directory, size}
use snii.Format.TailMeta.Header.{
  header_fields, header_size, region_checksum_size, RegionHeader, put_header, get_header,
}

pub record Entry : Type 0 where
  pub index_id : ℕ
  pub suffix : List ℕ
  pub bytes : List ℕ

-- TailMetaRegionBuilder
pub record Builder : Type 0 where
  pub entries : List Entry

unfoldable pub add_index : ℕ → List ℕ → Slice → Builder → Builder
add_index index_id index_suffix per_index_meta_bytes b = record {
  entries =
      b.entries
      ++ (record { index_id = index_id; suffix = index_suffix; bytes = per_index_meta_bytes } ∷ []);
}

abbrev pub ref_of : Entry → ℕ → LogicalIndexRef
ref_of e offset = record {
  index_id = e.index_id;
  index_suffix = e.suffix;
  meta_off = offset;
  meta_len = length e.bytes;
}

-- The loop over the entries: the directory and the offset behind the last block.
unfoldable pub lay_out : List Entry → ℕ → IndexDirectory.Builder → IndexDirectory.Builder × ℕ
lay_out [] offset dir = (dir, offset)
lay_out (e ∷ es) offset dir =
    lay_out es ((offset + length e.bytes) % 2 ^ 64) (IndexDirectory.add (ref_of e offset) dir)

abbrev pub no_directory : IndexDirectory.Builder
no_directory = record { refs = [] }

unfoldable pub fields_of : Builder → Slice → ℕ → Slice
fields_of b dir_bytes directory_offset =
    put_header
      (record {
        ver = meta_format_version;
        flags = 0;
        meta_region_len = (directory_offset + length dir_bytes + region_checksum_size) % 2 ^ 64;
        n = length b.entries % 2 ^ 32;
        directory_offset = directory_offset;
        directory_length = length dir_bytes;
      })
      []

-- The region without its checksum.
unfoldable pub covered_of : Builder → Slice → Slice → Slice
covered_of b fields dir_bytes =
    (put_bytes fields
        ⨾ put_fixed32 (crc32c fields)
        ⨾ put_many (λ (e : Entry). put_bytes e.bytes) b.entries
        ⨾ put_bytes dir_bytes)
      []

unfoldable pub region_of : Slice → Slice
region_of covered = put_fixed32 (crc32c covered) covered

unfoldable pub finish : Builder → Put
finish b =
    let laid = lay_out b.entries header_size no_directory in
    let dir_bytes = IndexDirectory.finish laid.0 [] in
    put_bytes (region_of (covered_of b (fields_of b dir_bytes laid.1) dir_bytes))

-- TailMetaRegionReader
pub record Reader : Type 0 where
  pub region : Slice
  pub dir : IndexDirectory.Reader
  pub n : ℕ

unfoldable pub check_region : Slice → Result (Unit {0})
check_region region = do
  region_crc ←
      run_get get_fixed32
        (subslice region (length region - region_checksum_size) region_checksum_size)
  fail_if (not (crc32c (subslice region 0 (length region - region_checksum_size)) == region_crc))
      (corruption "tail_meta_region: meta_region_checksum mismatch")

unfoldable pub check_header : Slice → RegionHeader → Result (Unit {0})
check_header region h = do
  header_crc ← run_get get_fixed32 (subslice region header_fields 4)
  fail_if (not (crc32c (subslice region 0 header_fields) == header_crc))
      (corruption "tail_meta_region: header crc mismatch")
  fail_if (not (h.ver == meta_format_version))
      (unsupported "tail_meta_region: unsupported meta_format_version")
  fail_if (not (h.meta_region_len == length region))
      (corruption "tail_meta_region: declared length mismatch")
  fail_if
      (ltb (length region) ((h.directory_offset + h.directory_length) % 2 ^ 64)
        || ltb h.directory_offset header_size)
      (corruption "tail_meta_region: directory out of range")

-- Sub-slices are taken and read as `open` does; where `directory_offset + directory_length` wraps, the
-- code's slice leaves the region and the model's stops at its end.
unfoldable pub open_region : Slice → Result Reader
open_region region = do
  fail_if (ltb (length region) (header_size + region_checksum_size))
      (corruption "tail_meta_region: region too short")
  check_region region
  h ← run_get get_header (subslice region 0 header_fields)
  check_header region h
  dir ← open_directory (subslice region h.directory_offset h.directory_length)
  fail_if (not (size dir == h.n)) (corruption "tail_meta_region: directory size mismatch")
  ok (record { region = region; dir = dir; n = h.n })

-- The block that a reference found in the directory names, and `none` where none was found.
unfoldable pub block_at : Slice → Option LogicalIndexRef → Result (Option Slice)
block_at region none = ok none
block_at region (some ref) =
    if ltb (length region) ((ref.meta_off + ref.meta_len) % 2 ^ 64)
    then corruption "tail_meta_region: meta block out of range"
    else ok (some (subslice region ref.meta_off ref.meta_len))

unfoldable pub find : Reader → ℕ → List ℕ → Result (Option Slice)
find r index_id suffix = block_at r.region (IndexDirectory.find r.dir index_id suffix)
