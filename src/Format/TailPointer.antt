-- ===== src/Format/TailPointer.antt =====
-- core/include/snii/format/tail_pointer.h, core/src/format/tail_pointer.cpp
-- The C++ decoder stores fields in `*out` before it verifies the checksum; a failure here has none.
pub mod RoundTrip
use snii.Common.{ℕ, ◌+◌, ◌*◌, ◌-◌, ◌%◌, ◌^◌, length, ◌==◌, not, [], if◌then◌else◌}
use snii.Common.Status.{Result, ok, corruption, internal, fail_if}
use snii.Common.Status
use snii.Encoding.Sink.{
  ByteSink, Put, ◌⨾◌, put_fixed16, put_fixed32, put_fixed64, put_u8, put_bytes,
}
use snii.Encoding.Source.{
  Slice, Get, ◌>>=◌, ◌>>◌, pure, reject_if, run_get, subslice, get_fixed16, get_fixed32,
  get_fixed64, get_u8,
}
use snii.Encoding.Crc32c.{crc32c}
use snii.Format.Constants.{tail_magic, format_version}

pub record TailPointer : Type 0 where
  pub meta_region_offset : ℕ
  pub meta_region_length : ℕ
  pub hot_off : ℕ
  pub meta_region_checksum : ℕ
  pub bootstrap_header_checksum : ℕ

abbrev pub fixed_size : ℕ
fixed_size = 4 + 2 + 3 * 8 + 2 * 4 + 1 + 4

abbrev pub checksum_coverage : ℕ
checksum_coverage = fixed_size - 4

unfoldable pub tail_pointer_size : ℕ
tail_pointer_size = fixed_size

unfoldable pub serialize_covered : TailPointer → Put
serialize_covered tp =
    put_fixed32 tail_magic
    ⨾ put_fixed16 format_version
    ⨾ put_fixed64 tp.meta_region_offset
    ⨾ put_fixed64 tp.meta_region_length
    ⨾ put_fixed64 tp.hot_off
    ⨾ put_fixed32 tp.meta_region_checksum
    ⨾ put_fixed32 tp.bootstrap_header_checksum
    ⨾ put_u8 (fixed_size % 2 ^ 8)

unfoldable pub encode_tail_pointer : TailPointer → ByteSink → Result ByteSink
encode_tail_pointer tp sink =
    let covered = serialize_covered tp [] in
    if not (length covered == checksum_coverage)
    then internal "tail_pointer: covered size mismatch"
    else ok ((put_bytes covered ⨾ put_fixed32 (crc32c covered)) sink)

unfoldable pub get_tail_pointer : Slice → Get TailPointer
get_tail_pointer last_bytes = do
  magic ← get_fixed32
  reject_if (not (magic == tail_magic)) (corruption "tail_pointer: bad magic")
  version ← get_fixed16
  meta_region_offset ← get_fixed64
  meta_region_length ← get_fixed64
  hot_off ← get_fixed64
  meta_region_checksum ← get_fixed32
  bootstrap_header_checksum ← get_fixed32
  on_disk_size ← get_u8
  reject_if (not (on_disk_size == fixed_size)) (corruption "tail_pointer: embedded size mismatch")
  tail_checksum ← get_fixed32
  reject_if (not (tail_checksum == crc32c (subslice last_bytes 0 checksum_coverage)))
      (corruption "tail_pointer: tail_checksum mismatch")
  pure (record {
    meta_region_offset = meta_region_offset;
    meta_region_length = meta_region_length;
    hot_off = hot_off;
    meta_region_checksum = meta_region_checksum;
    bootstrap_header_checksum = bootstrap_header_checksum;
  })

unfoldable pub decode_tail_pointer : Slice → Result TailPointer
decode_tail_pointer last_bytes =
    Status.◌>>◌
      (fail_if (not (length last_bytes == fixed_size))
        (corruption "tail_pointer: input is not the fixed size"))
      (run_get (get_tail_pointer last_bytes) last_bytes)
