-- ===== src/Format/MetaTests.antt =====
-- Runs of the metadata of core/src/format at concrete inputs.
use snii.Format.SampledIndex.{
  prefix_loop, common_prefix_len, write_term_key, write_terms, write_body, Term, open_index,
}
use snii.Format.TailMeta.{region_of, covered_of, fields_of, lay_out, open_region}
use snii.Format.IndexDirectory.{encode_entry, LogicalIndexRef}
use snii.Common.{◌≡◌, ◌⊎◌, arith, [], ◌∷◌, length, All, some, none}
use snii.Common.Status.{ok, ◌>>=◌}
use snii.Encoding.Varint.RoundTrip.{IsU64}
use snii.Encoding.Varint.{encode_varint64, encode_varint32, encode_varint_loop}
use snii.Encoding.Sink.{
  ◌⨾◌, put_u8, put_varint64, put_varint32, put_bytes, put_fixed32, put_fixed64, put_fixed_loop,
  put_many, put_nothing,
}
use snii.Encoding.Framer.{write_section, framed_view}
use snii.Format.TailMeta.Header.{put_header}
use snii.Format.IndexDirectory
use snii.Format.IndexDirectory.RoundTrip.{IsIndexRef, open_index_directory-finish}
use snii.Format.IndexDirectory.Find.{HasKey, IsFirst, find_lem}
use snii.Format.SampledIndex
use snii.Format.SampledIndex.RoundTrip.{open_index-finish}
use snii.Format.TailMeta
use snii.Format.TailMeta.Layout.{find_block}
use snii.Format.TailMeta.RoundTrip.{find-finish}

abbrev entry : LogicalIndexRef
entry = record { index_id = 3; index_suffix = 97 ∷ 98 ∷ []; meta_off = 40; meta_len = 9 }

entry-IsIndexRef : IsIndexRef entry
entry-IsIndexRef = record {
  index_id = omega arith;
  suffix_len = omega arith;
  meta_off = omega arith;
  meta_len = omega arith;
}

abbrev directory : IndexDirectory.Builder
directory = record { refs = entry ∷ [] }

directory_fits : IsU64 (length (IndexDirectory.finish directory []))
unfolding IndexDirectory.finish encode_entry write_section framed_view ◌⨾◌ put_u8 put_varint64
    put_varint32 put_bytes put_fixed32 put_fixed_loop put_many put_nothing encode_varint64
    encode_varint32 encode_varint_loop
directory_fits = omega arith

open_index_directory-finish_example :
    IndexDirectory.open_directory (IndexDirectory.finish directory [])
    ≡ ok (record { refs = entry ∷ [] })
open_index_directory-finish_example =
    open_index_directory-finish directory (omega arith) (entry-IsIndexRef, tt) directory_fits

abbrev opened_directory : IndexDirectory.Reader
opened_directory = record { refs = entry ∷ [] }

find_lem_example :
    ((IndexDirectory.find opened_directory 3 (97 ∷ 98 ∷ []) ≡ none)
      × All (λ other. ¬ HasKey 3 (97 ∷ 98 ∷ []) other) (entry ∷ []))
    ⊎ ((ref : LogicalIndexRef) × (IndexDirectory.find opened_directory 3 (97 ∷ 98 ∷ []) ≡ some ref)
        × IsFirst 3 (97 ∷ 98 ∷ []) (entry ∷ []) ref)
find_lem_example = find_lem opened_directory 3 (97 ∷ 98 ∷ [])

abbrev terms : SampledIndex.Builder
terms = record { first_terms = (97 ∷ 98 ∷ []) ∷ (97 ∷ 99 ∷ []) ∷ [] }

terms_fit : IsU64 (length (SampledIndex.finish terms []))
unfolding SampledIndex.finish write_body write_terms write_term_key common_prefix_len prefix_loop
    write_section framed_view ◌⨾◌ put_u8 put_varint64 put_varint32 put_bytes put_fixed32
    put_fixed_loop put_many put_nothing encode_varint64 encode_varint32 encode_varint_loop
terms_fit = omega arith

open_index-finish_example :
    open_index (SampledIndex.finish terms [])
    ≡ ok (record { sample_terms = (97 ∷ 98 ∷ []) ∷ (97 ∷ 99 ∷ []) ∷ [] })
open_index-finish_example =
    open_index-finish terms (omega arith) (omega arith, (omega arith, tt)) terms_fit

abbrev sampled : SampledIndex.Reader
sampled = record { sample_terms = (97 ∷ 98 ∷ []) ∷ (97 ∷ 99 ∷ []) ∷ [] }

abbrev target : Term
target = 97 ∷ 98 ∷ 98 ∷ []

abbrev region : TailMeta.Builder
region = record { entries = record { index_id = 3; suffix = 97 ∷ []; bytes = 1 ∷ 2 ∷ [] } ∷ [] }

region_fits : IsU64 (length (TailMeta.finish region []))
unfolding TailMeta.finish lay_out IndexDirectory.finish IndexDirectory.add fields_of covered_of
    region_of put_header put_fixed64 encode_entry write_section framed_view ◌⨾◌ put_u8 put_varint64
    put_varint32 put_bytes put_fixed32 put_fixed_loop put_many put_nothing encode_varint64
    encode_varint32 encode_varint_loop
region_fits = omega arith

region-IsBuilder : snii.Format.TailMeta.RoundTrip.IsBuilder region
region-IsBuilder = record {
  entries = (record { index_id = omega arith; suffix_len = omega arith }, tt);
  count = omega arith;
  blocks = omega arith;
  size = region_fits;
}

find-finish_example :
    (open_region (TailMeta.finish region []) >>= λ r. TailMeta.find r 3 (97 ∷ []))
    ≡ ok (find_block region.entries 3 (97 ∷ []))
find-finish_example = find-finish region 3 (97 ∷ []) region-IsBuilder
