-- ===== src/Format/PerIndexMeta/Layout.antt =====
-- The bytes that PerIndexMetaBuilder::finish of core/src/format/per_index_meta.cpp writes.
use snii.Common.{◌≡◌, ℕ, List, [], ◌++◌, length}
use snii.Encoding.Varint.RoundTrip.{IsU32}
use snii.Encoding.Codec.{Writes-⨾}
use snii.Encoding.Codec.Many.{concat_map, Writes-put_many}
use snii.Encoding.Codec.Primitives.{Writes-put_bytes}
use snii.Encoding.Framer.RoundTrip.{section_bytes}
use snii.Encoding.Sink.{put_bytes}
use snii.Format.Constants.{stats_block_type, section_refs_type}
use snii.Format.PerIndexMeta.Header.{MetaHeader, header_bytes, Writes-encode_header}
use snii.Format.PerIndexMeta.Refs.{refs_bytes, Writes-encode_section_refs}
use snii.Format.PerIndexMeta.{Builder, finish}
use snii.Format.Stats.RoundTrip.{payload_bytes, Writes-encode_stats_block}

module _ (b : Builder) where
  abbrev pub head_of : MetaHeader
  head_of = record { index_id = b.index_id; index_suffix = b.index_suffix; flags = b.flags }

  abbrev pub sections_bytes : List ℕ
  sections_bytes =
      section_bytes stats_block_type (payload_bytes b.stats)
      ++ (b.sampled_term_index
          ++ (b.dict_block_directory
              ++ (section_bytes section_refs_type (refs_bytes b.section_refs)
                  ++ concat_map (λ (bs : List ℕ). bs) b.extra_sections)))

  unfoldable pub meta_bytes : List ℕ
  meta_bytes = header_bytes head_of ++ sections_bytes

  pub finish_bytes : IsU32 (length b.index_suffix) → finish b [] ≡ meta_bytes
  unfolding finish meta_bytes
  finish_bytes h =
      (Writes-⨾ (Writes-encode_header head_of h) (
          Writes-⨾ (Writes-encode_stats_block b.stats) (
            Writes-⨾ (Writes-put_bytes b.sampled_term_index) (
              Writes-⨾ (Writes-put_bytes b.dict_block_directory) (
                Writes-⨾ (Writes-encode_section_refs b.section_refs) (
                  Writes-put_many (λ (bs : List ℕ). bs) put_bytes Writes-put_bytes
                    b.extra_sections)))))).run
        []
