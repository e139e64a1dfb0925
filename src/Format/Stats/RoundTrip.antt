-- ===== src/Format/Stats/RoundTrip.antt =====
-- encode_stats_block and decode_stats_block of core/src/format/stats_block.cpp, together.
use snii.Common.{ℕ, ◌≤◌, ◌≡◌, refl, arith, List, [], ◌∷◌, ◌++◌, length, length-append}
use snii.Common.Status.{fail, corrupt}
use snii.Encoding.Varint.{encode_varint64}
use snii.Encoding.Varint.RoundTrip.{IsU64}
use snii.Encoding.Varint.Shape.{encode_varint64_shape}
use snii.Encoding.Codec.{Writes, Writes-⨾, Reads, Reads->>=, Reads-last, Reads-reject, Reads-pure}
use snii.Encoding.Codec.Primitives.{Writes-put_varint64, Reads-get_varint64}
use snii.Encoding.Codec.Many.{Reads-lift, full_get-Reads, full_get-trailing}
use snii.Encoding.Framer.RoundTrip.{section_bytes, Writes-write_section, Reads-read_section}
use snii.Format.Constants.{stats_block_type}
use snii.Format.Stats.{
  StatsBlock, encode_payload, get_payload, decode_payload, encode_stats_block, decode_stats_block,
}

-- Every field is a uint64_t.
pub record IsStatsBlock (sb : StatsBlock) : Type 0 where
  pub doc_count : IsU64 sb.doc_count
  pub indexed_doc_count : IsU64 sb.indexed_doc_count
  pub term_count : IsU64 sb.term_count
  pub sum_total_term_freq : IsU64 sb.sum_total_term_freq
  pub null_count : IsU64 sb.null_count

abbrev pub payload_bytes : StatsBlock → List ℕ
payload_bytes sb =
    encode_varint64 sb.doc_count
    ++ (encode_varint64 sb.indexed_doc_count
        ++ (encode_varint64 sb.term_count
            ++ (encode_varint64 sb.sum_total_term_freq ++ encode_varint64 sb.null_count)))

abbrev pub stats_block_bytes : StatsBlock → List ℕ
stats_block_bytes sb = section_bytes stats_block_type (payload_bytes sb)

Writes-encode_payload : (sb : StatsBlock) → Writes (encode_payload sb) (payload_bytes sb)
unfolding encode_payload
Writes-encode_payload sb = Writes-⨾ (Writes-put_varint64 _) (
    Writes-⨾ (Writes-put_varint64 _)
      (Writes-⨾ (Writes-put_varint64 _) (Writes-⨾ (Writes-put_varint64 _) (Writes-put_varint64 _))))

Reads-get_payload : (sb : StatsBlock) → IsStatsBlock sb → Reads get_payload (payload_bytes sb) sb
unfolding get_payload
Reads-get_payload sb v = Reads->>= _ _ (Reads-get_varint64 _ v.doc_count) (
    Reads->>= _ _ (Reads-get_varint64 _ v.indexed_doc_count) (
      Reads->>= _ _ (Reads-get_varint64 _ v.term_count) (
        Reads->>= _ _ (Reads-get_varint64 _ v.sum_total_term_freq)
          (Reads-last _ _ (Reads-get_varint64 _ v.null_count) (Reads-pure sb)))))

pub length-payload_bytes : (sb : StatsBlock) → IsStatsBlock sb → length (payload_bytes sb) ≤ 50
length-payload_bytes sb v = omega (
  arith,
  length-append {0},
  (encode_varint64_shape sb.doc_count v.doc_count).2,
  (encode_varint64_shape sb.indexed_doc_count v.indexed_doc_count).2,
  (encode_varint64_shape sb.term_count v.term_count).2,
  (encode_varint64_shape sb.sum_total_term_freq v.sum_total_term_freq).2,
  (encode_varint64_shape sb.null_count v.null_count).2,
)

pub Writes-encode_stats_block :
    (sb : StatsBlock) → Writes (encode_stats_block sb) (stats_block_bytes sb)
unfolding encode_stats_block
Writes-encode_stats_block sb =
    rw ((Writes-encode_payload sb).run [])
      (Writes-write_section stats_block_type (payload_bytes sb))

pub Reads-decode_stats_block :
    (sb : StatsBlock) → IsStatsBlock sb → Reads decode_stats_block (stats_block_bytes sb) sb
unfolding decode_stats_block
Reads-decode_stats_block sb v =
    Reads-last _ _
      (Reads-read_section stats_block_type (payload_bytes sb)
        (omega (arith, length-payload_bytes sb v)))
      (Reads-reject _ refl
        (Reads-lift (unfold decode_payload in full_get-Reads _ (Reads-get_payload sb v))))

-- decode_payload refuses the payload of a statistics block with bytes behind it.
pub decode_payload_trailing :
    (sb : StatsBlock) (x : ℕ) (xs : List ℕ)
    → IsStatsBlock sb
    → decode_payload (encode_payload sb [] ++ (x ∷ xs))
      ≡ fail (corrupt "stats_block: trailing bytes in payload")
decode_payload_trailing sb x xs v =
    rw ((Writes-encode_payload sb).run [])
      (unfold decode_payload in full_get-trailing _ x xs (Reads-get_payload sb v))

-- decode_stats_block reads back what encode_stats_block wrote, wherever it stands in the input, and
-- leaves the cursor behind it.
pub decode_stats_block-encode_stats_block :
    (sb : StatsBlock) → IsStatsBlock sb → Reads decode_stats_block (encode_stats_block sb []) sb
decode_stats_block-encode_stats_block sb v =
    rw ((Writes-encode_stats_block sb).run []) (Reads-decode_stats_block sb v)
