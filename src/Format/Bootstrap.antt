-- ===== src/Format/Bootstrap.antt =====
-- core/include/snii/format/bootstrap_header.h, core/src/format/bootstrap_header.cpp
-- The null-pointer checks on `sink` and `out` have no counterpart: there is no null here.
pub mod RoundTrip
use snii.Common.{ℕ, ◌*◌, ◌/◌, ◌%◌, ◌^◌, bit_and, bit_or, ltb, length, ◌==◌, not, []}
use snii.Common.Status.{Result, corruption, unsupported, fail_if}
use snii.Common.Status
use snii.Encoding.Sink.{Put, ◌⨾◌, put_fixed32, put_u8, put_bytes}
use snii.Encoding.Source.{
  Slice, Get, ◌>>=◌, ◌>>◌, pure, reject_if, run_get, subslice, get_fixed32, get_u8,
}
use snii.Encoding.Crc32c.{crc32c}
use snii.Format.Constants.{container_magic, format_version}

pub record BootstrapHeader : Type 0 where
  pub magic : ℕ
  pub format_version : ℕ
  pub min_reader_version : ℕ
  pub flags : ℕ
  pub header_length : ℕ
  pub tail_pointer_size : ℕ

abbrev pub bootstrap_header_size : ℕ
bootstrap_header_size = 21

abbrev pub checksum_coverage : ℕ
checksum_coverage = 17

-- `min_reader_version << 16 | format_version` in 32 bits.
unfoldable pub encode_fields : BootstrapHeader → Put
encode_fields header =
    put_fixed32 header.magic
    ⨾ put_fixed32 (bit_or (header.min_reader_version * 2 ^ 16 % 2 ^ 32) header.format_version)
    ⨾ put_fixed32 header.flags
    ⨾ put_fixed32 bootstrap_header_size
    ⨾ put_u8 header.tail_pointer_size

unfoldable pub encode_bootstrap_header : BootstrapHeader → Put
encode_bootstrap_header header =
    let fields = encode_fields header [] in put_bytes fields ⨾ put_fixed32 (crc32c fields)

-- The reads and, behind them, the tests; `data` is the whole input.
unfoldable pub get_bootstrap_header : Slice → Get BootstrapHeader
get_bootstrap_header input = do
  magic ← get_fixed32
  version_pair ← get_fixed32
  flags ← get_fixed32
  header_length ← get_fixed32
  tail_pointer_size ← get_u8
  stored_checksum ← get_fixed32
  reject_if (not (magic == container_magic)) (corruption "bootstrap_header: bad container magic")
  reject_if (not (crc32c (subslice input 0 checksum_coverage) == stored_checksum))
      (corruption "bootstrap_header: checksum mismatch")
  reject_if (ltb format_version (bit_and (version_pair / 2 ^ 16) 0xFFFF % 2 ^ 16))
      (unsupported "bootstrap_header: container requires a newer reader version")
  pure (record {
    magic = magic;
    format_version = bit_and version_pair 0xFFFF % 2 ^ 16;
    min_reader_version = bit_and (version_pair / 2 ^ 16) 0xFFFF % 2 ^ 16;
    flags = flags;
    header_length = header_length;
    tail_pointer_size = tail_pointer_size;
  })

unfoldable pub decode_bootstrap_header : Slice → Result BootstrapHeader
decode_bootstrap_header input =
    Status.◌>>◌
      (fail_if (not (length input == bootstrap_header_size))
        (corruption "bootstrap_header: wrong header size"))
      (run_get (get_bootstrap_header input) input)
