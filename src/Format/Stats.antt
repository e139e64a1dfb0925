-- ===== src/Format/Stats.antt =====
-- core/include/snii/format/stats_block.h, core/src/format/stats_block.cpp
pub mod RoundTrip
use snii.Common.{ℕ, ◌==◌, not, []}
use snii.Common.Status.{Result, corrupt, invalid_argument}
use snii.Encoding.Sink.{Put, ◌⨾◌, put_varint64}
use snii.Encoding.Source.{Slice, Get, ◌>>=◌, ◌>>◌, pure, lift, reject_if, full_get, get_varint64}
use snii.Encoding.Framer.{write_section, read_section}
use snii.Format.Constants.{stats_block_type}

pub record StatsBlock : Type 0 where
  pub doc_count : ℕ
  pub indexed_doc_count : ℕ
  pub term_count : ℕ
  pub sum_total_term_freq : ℕ
  pub null_count : ℕ

unfoldable pub encode_payload : StatsBlock → Put
encode_payload sb =
    put_varint64 sb.doc_count
    ⨾ put_varint64 sb.indexed_doc_count
    ⨾ put_varint64 sb.term_count
    ⨾ put_varint64 sb.sum_total_term_freq
    ⨾ put_varint64 sb.null_count

unfoldable pub get_payload : Get StatsBlock
get_payload = do
  doc_count ← get_varint64
  indexed_doc_count ← get_varint64
  term_count ← get_varint64
  sum_total_term_freq ← get_varint64
  null_count ← get_varint64
  pure (record {
    doc_count = doc_count;
    indexed_doc_count = indexed_doc_count;
    term_count = term_count;
    sum_total_term_freq = sum_total_term_freq;
    null_count = null_count;
  })

unfoldable pub decode_payload : Slice → Result StatsBlock
decode_payload payload =
    full_get get_payload (corrupt "stats_block: trailing bytes in payload") payload

unfoldable pub encode_stats_block : StatsBlock → Put
encode_stats_block sb = write_section stats_block_type (encode_payload sb [])

unfoldable pub decode_stats_block : Get StatsBlock
decode_stats_block = do
  sec ← read_section
  reject_if (not (sec.section_type == stats_block_type))
      (invalid_argument "stats_block: unexpected section type")
  lift (decode_payload sec.payload)
