-- ===== src/Format/Tests.antt =====
-- Runs of the sections of core/src/format at concrete inputs.
use snii.Common.{ℕ, ◌+◌, ◌≡◌, refl, arith, List, [], ◌∷◌, ◌++◌, length}
use snii.Common.Status.{ok, fail, corrupt, invalid_argument}
use snii.Encoding.Codec.{Reads}
use snii.Format.Constants.{container_magic}
use snii.Format.Stats.{
  StatsBlock, encode_payload, decode_payload, encode_stats_block, decode_stats_block,
}
use snii.Format.Stats.RoundTrip.{
  IsStatsBlock, decode_stats_block-encode_stats_block, decode_payload_trailing,
}
use snii.Format.Bootstrap.{
  BootstrapHeader, encode_bootstrap_header, decode_bootstrap_header, bootstrap_header_size,
}
use snii.Format.Bootstrap.RoundTrip.{IsReadable, decode-encode_bootstrap_header}
use snii.Format.TailPointer.{
  TailPointer, tail_pointer_size, encode_tail_pointer, decode_tail_pointer,
}
use snii.Format.TailPointer.RoundTrip.{IsTailPointer, decode-encode_tail_pointer}
use snii.Format.Norms
use snii.Format.Norms.{NormsPodWriter, NormsPodReader, open_norms, try_encoded_norm}
use snii.Format.Norms.RoundTrip.{open_norms-finish, try_encoded_norm-add}
use snii.Format.DictDirectory
use snii.Format.DictDirectory.{BlockRef}
use snii.Format.DictDirectory.RoundTrip.{IsBlockRef, open_block_directory-finish}

abbrev counts : StatsBlock
counts = record {
  doc_count = 1000;
  indexed_doc_count = 990;
  term_count = 300;
  sum_total_term_freq = 123_456;
  null_count = 10;
}

counts-IsStatsBlock : IsStatsBlock counts
counts-IsStatsBlock = record {
  doc_count = omega arith;
  indexed_doc_count = omega arith;
  term_count = omega arith;
  sum_total_term_freq = omega arith;
  null_count = omega arith;
}

decode_stats_block-encode_stats_block_example :
    Reads decode_stats_block (encode_stats_block counts []) counts
decode_stats_block-encode_stats_block_example =
    decode_stats_block-encode_stats_block counts counts-IsStatsBlock

decode_payload_trailing_example :
    decode_payload (encode_payload counts [] ++ (7 ∷ []))
    ≡ fail (corrupt "stats_block: trailing bytes in payload")
decode_payload_trailing_example = decode_payload_trailing counts 7 [] counts-IsStatsBlock

abbrev header : BootstrapHeader
header = record {
  magic = container_magic;
  format_version = 1;
  min_reader_version = 1;
  flags = 5;
  header_length = bootstrap_header_size;
  tail_pointer_size = 44;
}

header-IsReadable : IsReadable header
header-IsReadable = record {
  magic = refl;
  format_version = omega arith;
  min_reader_version = omega arith;
  flags = omega arith;
  header_length = refl;
}

decode-encode_bootstrap_header_example :
    decode_bootstrap_header (encode_bootstrap_header header []) ≡ ok header
decode-encode_bootstrap_header_example = decode-encode_bootstrap_header header header-IsReadable

abbrev pointer : TailPointer
pointer = record {
  meta_region_offset = 4096;
  meta_region_length = 300;
  hot_off = 4000;
  meta_region_checksum = 77;
  bootstrap_header_checksum = 88;
}

pointer-IsTailPointer : IsTailPointer pointer
pointer-IsTailPointer = record {
  meta_region_offset = omega arith;
  meta_region_length = omega arith;
  hot_off = omega arith;
  meta_region_checksum = omega arith;
  bootstrap_header_checksum = omega arith;
}

decode-encode_tail_pointer_example :
    (footer : List ℕ) × (encode_tail_pointer pointer (1 ∷ []) ≡ ok ((1 ∷ []) ++ footer))
    × (length footer ≡ tail_pointer_size)
    × (decode_tail_pointer footer ≡ ok pointer)
decode-encode_tail_pointer_example =
    decode-encode_tail_pointer pointer (1 ∷ []) pointer-IsTailPointer

abbrev norms : NormsPodWriter
norms = record { norms = 12 ∷ 3 ∷ [] }

open_norms-finish_example :
    open_norms (Norms.finish norms [])
    ≡ ok (record { norms = 12 ∷ 3 ∷ []; doc_count = Norms.count norms })
open_norms-finish_example = open_norms-finish norms (omega arith)

try_encoded_norm-add_example :
    (r : NormsPodReader) × (open_norms (Norms.finish (Norms.add 9 norms) []) ≡ ok r)
    × (try_encoded_norm r (Norms.count norms) ≡ ok 9)
    × (try_encoded_norm r (Norms.count norms + 1) ≡ invalid_argument "norms: docid out of range")
try_encoded_norm-add_example = try_encoded_norm-add norms 9 (unfold Norms.count in omega arith)

abbrev block : BlockRef
block = record {
  offset = 0;
  length = 500;
  n_entries = 16;
  flags = 1;
  checksum = 99;
  uncomp_len = 900;
}

block-IsBlockRef : IsBlockRef block
block-IsBlockRef = record {
  offset = omega arith;
  len = omega arith;
  n_entries = omega arith;
  checksum = omega arith;
  uncomp_len = omega arith;
  unstored = λ e. ground arith;
}

abbrev blocks : DictDirectory.Builder
blocks = record { refs = block ∷ [] }

open_block_directory-finish_example :
    DictDirectory.open_directory (DictDirectory.finish blocks [])
    ≡ ok (record { refs = block ∷ [] })
open_block_directory-finish_example =
    open_block_directory-finish blocks (omega arith) (block-IsBlockRef, tt)
