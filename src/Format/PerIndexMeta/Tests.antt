-- ===== src/Format/PerIndexMeta/Tests.antt =====
-- A run of PerIndexMetaBuilder and PerIndexMetaReader of core/src/format/per_index_meta.cpp.
use snii.Common.{ℕ, List, replicate, length-replicate, ◌≡◌, refl, arith, [], ◌∷◌}
use snii.Common.Status.{ok, fail, corrupt}
use snii.Encoding.Framer.RoundTrip.{section_bytes}
use snii.Format.PerIndexMeta.Refs.{IsSectionRefs, no_refs, SectionRefs}
use snii.Format.PerIndexMeta.RoundTrip.{IsBuilder, open_meta-finish}
use snii.Format.PerIndexMeta.Loop.{Extra, IsUnknown}
use snii.Format.PerIndexMeta.Suffix.{open_meta-finish_long}
use snii.Format.PerIndexMeta.{Builder, finish, open_meta}

abbrev refs : SectionRefs
refs = record no_refs { bsbf = record { offset = 900; length = 64 } }

abbrev meta : Builder
meta = record {
  index_id = 3;
  index_suffix = 97 ∷ [];
  flags = 1;
  stats = record {
    doc_count = 1000;
    indexed_doc_count = 990;
    term_count = 300;
    sum_total_term_freq = 123_456;
    null_count = 10;
  };
  sampled_term_index = section_bytes 2 (1 ∷ []);
  dict_block_directory = section_bytes 3 (2 ∷ []);
  section_refs = refs;
  extra_sections = section_bytes 9 (4 ∷ 5 ∷ []) ∷ [];
}

abbrev unknown : Extra
unknown = record { section_type = 9; payload = 4 ∷ 5 ∷ [] }

unknown-IsUnknown : IsUnknown unknown
unknown-IsUnknown = record {
  not_stats = omega arith;
  not_sampled = omega arith;
  not_dict = omega arith;
  not_refs = omega arith;
  size = omega arith;
}

refs-IsSectionRefs : IsSectionRefs refs
refs-IsSectionRefs = record {
  dict_region = (omega arith, omega arith);
  posting_region = (omega arith, omega arith);
  norms = (omega arith, omega arith);
  null_bitmap = (omega arith, omega arith);
  bsbf = (omega arith, omega arith);
}

abbrev meta-IsBuilder : IsBuilder meta
meta-IsBuilder = record {
  head = record { index_id = omega arith; suffix_len = omega arith; flags = omega arith };
  stats = record {
    doc_count = omega arith;
    indexed_doc_count = omega arith;
    term_count = omega arith;
    sum_total_term_freq = omega arith;
    null_count = omega arith;
  };
  section_refs = refs-IsSectionRefs;
  sampled = 1 ∷ [];
  sampled_frame = refl;
  sampled_size = omega arith;
  dict = 2 ∷ [];
  dict_frame = refl;
  dict_size = omega arith;
  extras = unknown ∷ [];
  extra_frames = refl;
  unknown = (unknown-IsUnknown, tt);
}

open_meta-finish_example :
    open_meta (finish meta [])
    ≡ ok (record {
      index_id = 3;
      index_suffix = 97 ∷ [];
      flags = 1;
      stats = meta.stats;
      section_refs = refs;
      sampled_term_index = section_bytes 2 (1 ∷ []);
      dict_block_directory = section_bytes 3 (2 ∷ []);
    })
open_meta-finish_example = open_meta-finish meta meta-IsBuilder

abbrev long_suffix : List ℕ
long_suffix = replicate 65_537 97

open_meta-finish_long_example :
    open_meta (finish (record meta { index_suffix = long_suffix }) [])
    ≡ fail (corrupt "per_index_meta: suffix_len exceeds bounds")
open_meta-finish_long_example =
    open_meta-finish_long (record meta { index_suffix = long_suffix }) (omega arith)
      (omega (arith, length-replicate {A = ℕ} 65_537 97))
      (omega (arith, length-replicate {A = ℕ} 65_537 97))
