-- ===== src/Format/PerIndexMeta/RoundTrip.antt =====
-- PerIndexMetaBuilder::finish and PerIndexMetaReader::open of core/src/format/per_index_meta.cpp, together.
use snii.Format.PerIndexMeta.Layout.{head_of, sections_bytes, meta_bytes, finish_bytes}
use snii.Format.PerIndexMeta.Loop.{
  frame_of, loop_takes, loop_skips, takes_stats, takes_refs, Extra, extra_bytes, IsUnknown,
}
use snii.Encoding.Codec.End.{
  ReadsEnd-then, ReadsEnd, ReadsEnd->>=, Reads→ReadsEnd, run_get-ReadsEnd,
}
use snii.Format.Stats.RoundTrip.{length-payload_bytes, IsStatsBlock, payload_bytes}
use snii.Encoding.Codec.{Reads-reject, Reads-pure}
use snii.Common.{
  ap, ℕ, suc, ◌-◌, ◌<◌, ◌≤◌, ◌≡◌, refl, arith, List, [], ◌∷◌, ◌++◌, map, length, length-append, All,
  true,
}
use snii.Common.Status.{ok}
use snii.Encoding.Varint.RoundTrip.{IsU64}
use snii.Encoding.Codec.Many.{concat_map}
use snii.Encoding.Framer.RoundTrip.{section_bytes, length-section_bytes}
use snii.Format.Constants.{
  stats_block_type, sampled_term_index_type, dict_block_directory_type, section_refs_type,
}
use snii.Format.PerIndexMeta.Header.{IsHeader, header_bytes, Reads-decode_header}
use snii.Format.PerIndexMeta.Refs.{IsSectionRefs, refs_bytes, length-refs_bytes}
use snii.Format.PerIndexMeta.Sections.{Parts, no_parts, dispatch_frame, take_frame, sections_loop}
use snii.Format.PerIndexMeta.{Builder, Reader, finish, get_meta, open_meta}

-- A builder's fields fit their types, its two embedded sections are sections of their types, and the
-- others have types that open does not know.
pub record IsBuilder (b : Builder) : Type 0 where
  pub head :
      IsHeader (record { index_id = b.index_id; index_suffix = b.index_suffix; flags = b.flags })
  pub stats : IsStatsBlock b.stats
  pub section_refs : IsSectionRefs b.section_refs
  pub sampled : List ℕ
  pub sampled_frame : b.sampled_term_index ≡ section_bytes sampled_term_index_type sampled
  pub sampled_size : IsU64 (length sampled)
  pub dict : List ℕ
  pub dict_frame : b.dict_block_directory ≡ section_bytes dict_block_directory_type dict
  pub dict_size : IsU64 (length dict)
  pub extras : List Extra
  pub extra_frames : b.extra_sections ≡ map extra_bytes extras
  pub unknown : All IsUnknown extras

concat-map :
    (xs : List Extra)
    → concat_map (λ (bs : List ℕ). bs) (map extra_bytes xs) ≡ concat_map extra_bytes xs
concat-map [] = refl
concat-map (x ∷ xs) = ap (λ t. extra_bytes x ++ t) (concat-map xs)

length-extras : (xs : List Extra) → length xs ≤ length (concat_map extra_bytes xs)
length-extras [] = omega arith
length-extras (x ∷ xs) = omega (
  arith,
  length-append (extra_bytes x) (concat_map extra_bytes xs),
  length-section_bytes x.section_type x.payload,
  length-extras xs,
)

module _ (b : Builder) (v : IsBuilder b) where
  abbrev after_stats : Parts
  after_stats = record no_parts { stats = b.stats; have_stats = true }

  abbrev after_sampled : Parts
  after_sampled = record after_stats {
    sampled_term_index = section_bytes sampled_term_index_type v.sampled;
  }

  abbrev after_dict : Parts
  after_dict = record after_sampled {
    dict_block_directory = section_bytes dict_block_directory_type v.dict;
  }

  abbrev found_parts : Parts
  found_parts = record after_dict { section_refs = b.section_refs; have_refs = true }

  takes_sampled :
      take_frame (frame_of sampled_term_index_type v.sampled) after_stats ≡ ok after_sampled
  unfolding take_frame dispatch_frame
  takes_sampled = refl

  takes_dict : take_frame (frame_of dict_block_directory_type v.dict) after_sampled ≡ ok after_dict
  unfolding take_frame dispatch_frame
  takes_dict = refl

  framed_bytes : List ℕ
  framed_bytes =
      section_bytes stats_block_type (payload_bytes b.stats)
      ++ (section_bytes sampled_term_index_type v.sampled
          ++ (section_bytes dict_block_directory_type v.dict
              ++ (section_bytes section_refs_type (refs_bytes b.section_refs)
                  ++ concat_map extra_bytes v.extras)))

  sections-framed : sections_bytes b ≡ framed_bytes
  unfolding framed_bytes
  sections-framed = rw (v.extra_frames, concat-map v.extras, v.sampled_frame, v.dict_frame) refl

  loop_finds :
      (m : ℕ)
      → length v.extras < m
      → ReadsEnd (sections_loop (suc (suc (suc (suc m)))) no_parts) framed_bytes found_parts
  unfolding framed_bytes
  loop_finds m h =
      loop_takes _ _ _ _ no_parts after_stats small_stats
        (takes_stats b.stats b.section_refs no_parts v.stats)
        (loop_takes _ _ v.sampled _ after_stats after_sampled v.sampled_size takes_sampled (
          loop_takes _ _ v.dict _ after_sampled after_dict v.dict_size takes_dict (
            loop_takes _ _ _ _ after_dict found_parts small_refs
              (takes_refs b.stats b.section_refs after_dict v.section_refs)
              (loop_skips m v.extras found_parts v.unknown h))))
    where
      small_stats : IsU64 (length (payload_bytes b.stats))
      small_stats = omega (arith, length-payload_bytes b.stats v.stats)

      small_refs : IsU64 (length (refs_bytes b.section_refs))
      small_refs = omega (arith, length-refs_bytes b.section_refs v.section_refs)

  abbrev found : Reader
  found = record {
    index_id = b.index_id;
    index_suffix = b.index_suffix;
    flags = b.flags;
    stats = b.stats;
    section_refs = b.section_refs;
    sampled_term_index = section_bytes sampled_term_index_type v.sampled;
    dict_block_directory = section_bytes dict_block_directory_type v.dict;
  }

  gets_meta :
      (block : List ℕ) (m : ℕ)
      → length block ≡ suc (suc (suc (suc m)))
      → length v.extras < m
      → ReadsEnd (get_meta block) (header_bytes (head_of b) ++ framed_bytes) found
  unfolding get_meta
  gets_meta block m e h = ReadsEnd->>= _ _ (Reads-decode_header (head_of b) v.head) (
      rw e (
        ReadsEnd-then _ (loop_finds m h) (Reads→ReadsEnd (Reads-reject _ refl (Reads-pure found)))))

  enough : length v.extras < length (meta_bytes b) - 4
  unfolding meta_bytes
  enough = rw sections-framed (
      unfold framed_bytes in
      omega (
        arith,
        length-append {0},
        length-section_bytes stats_block_type (payload_bytes b.stats),
        length-section_bytes sampled_term_index_type v.sampled,
        length-extras v.extras,
      ))

  size :
      length (header_bytes (head_of b) ++ framed_bytes)
      ≡ suc (suc (suc (suc (length (meta_bytes b) - 4))))
  unfolding meta_bytes
  size = rw sections-framed (
      unfold framed_bytes in
      omega (
        arith,
        length-append {0},
        length-section_bytes stats_block_type (payload_bytes b.stats),
        length-section_bytes sampled_term_index_type v.sampled,
      ))

  -- If the builder's suffix has at most 65536 bytes, its other fields fit their types, its two embedded
  -- sections are framed sections of their types and its others framed sections of types that open does
  -- not know, then what finish wrote opens as a reader with the builder's header, statistics and references
  -- and with its two framed sections; the others are passed over.
  pub open_meta-finish : open_meta (finish b []) ≡ ok found
  unfolding open_meta
  open_meta-finish = rw (finish_bytes b (omega (arith, v.head.suffix_len))) (
      unfold meta_bytes in
      rw sections-framed (run_get-ReadsEnd (gets_meta _ (length (meta_bytes b) - 4) size enough)))
