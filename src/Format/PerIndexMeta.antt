-- ===== src/Format/PerIndexMeta.antt =====
-- core/include/snii/format/per_index_meta.h, core/src/format/per_index_meta.cpp
-- The null checks on `sink` and `out` have no counterpart: there is no null here.
pub mod Header
pub mod Refs
pub mod Sections
pub mod Loop
pub mod RoundTrip
pub mod Layout
pub mod Suffix
mod Tests
use snii.Common.{
  ℕ, List, [], ◌∷◌, ◌++◌, length, ltb, ◌==◌, ◌||◌, not, bit_and, Bool, true, false, if◌then◌else◌,
}
use snii.Common.Status.{Result, corruption}
use snii.Encoding.Sink.{Put, ◌⨾◌, put_bytes, put_many}
use snii.Encoding.Source.{Slice, Get, ◌>>=◌, ◌>>◌, pure, reject_if, run_get}
use snii.Format.Stats.{StatsBlock, encode_stats_block}
use snii.Format.PerIndexMeta.Header.{encode_header, decode_header}
use snii.Format.PerIndexMeta.Refs.{RegionRef, SectionRefs, encode_section_refs, no_refs}
use snii.Format.PerIndexMeta.Sections.{Parts, sections_loop, no_parts}

-- PerIndexMetaBuilder
pub record Builder : Type 0 where
  pub index_id : ℕ
  pub index_suffix : List ℕ
  pub flags : ℕ
  pub stats : StatsBlock
  pub sampled_term_index : List ℕ
  pub dict_block_directory : List ℕ
  pub section_refs : SectionRefs
  pub extra_sections : List (List ℕ)

unfoldable pub set_stats : StatsBlock → Builder → Builder
set_stats stats b = record b { stats = stats }

unfoldable pub set_sampled_term_index : Slice → Builder → Builder
set_sampled_term_index framed_bytes b = record b { sampled_term_index = framed_bytes }

unfoldable pub set_dict_block_directory : Slice → Builder → Builder
set_dict_block_directory framed_bytes b = record b { dict_block_directory = framed_bytes }

unfoldable pub set_section_refs : SectionRefs → Builder → Builder
set_section_refs refs b = record b { section_refs = refs }

unfoldable pub add_raw_section : Slice → Builder → Builder
add_raw_section framed_bytes b = record b {
  extra_sections = b.extra_sections ++ (framed_bytes ∷ []);
}

unfoldable pub finish : Builder → Put
finish b =
    encode_header b.index_id b.index_suffix b.flags
    ⨾ encode_stats_block b.stats
    ⨾ put_bytes b.sampled_term_index
    ⨾ put_bytes b.dict_block_directory
    ⨾ encode_section_refs b.section_refs
    ⨾ put_many put_bytes b.extra_sections

-- PerIndexMetaReader
pub record Reader : Type 0 where
  pub index_id : ℕ
  pub index_suffix : List ℕ
  pub flags : ℕ
  pub stats : StatsBlock
  pub section_refs : SectionRefs
  pub sampled_term_index : Slice
  pub dict_block_directory : Slice

-- A section takes six bytes of the block at least, so the loop has a round for each of them.
unfoldable pub get_meta : Slice → Get Reader
get_meta block = do
  head ← decode_header
  parts ← sections_loop (length block) no_parts
  reject_if (not parts.have_stats || not parts.have_refs)
      (corruption "per_index_meta: missing required sub-section")
  pure (record {
    index_id = head.index_id;
    index_suffix = head.index_suffix;
    flags = head.flags;
    stats = parts.stats;
    section_refs = parts.section_refs;
    sampled_term_index = parts.sampled_term_index;
    dict_block_directory = parts.dict_block_directory;
  })

unfoldable pub open_meta : Slice → Result Reader
open_meta block = run_get (get_meta block) block

unfoldable pub has_bsbf : Reader → Bool
has_bsbf r = ltb 0 r.section_refs.bsbf.length

-- kHasPositions is bit 0 of the flags.
unfoldable pub has_positions : Reader → Bool
has_positions r = not (bit_and r.flags 1 == 0)
