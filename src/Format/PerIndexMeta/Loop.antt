-- ===== src/Format/PerIndexMeta/Loop.antt =====
-- The loop of PerIndexMetaReader::open (core/src/format/per_index_meta.cpp) over framed sections.
use snii.Encoding.Codec.{
  ReadsAt-last, Reads, ReadsAt, Reads→ReadsAt, ReadsAt→Reads, ReadsAt-get_position,
  ReadsAt-get_slice_from, Reads-pure, run_get-Reads,
}
use snii.Format.PerIndexMeta.{StatsBlock}
use snii.Common.{
  ℕ, zero, suc, ◌-◌, ◌<◌, ◌≡◌, ◌≢◌, arith, List, [], ◌∷◌, ◌++◌, length, length-append, append-nil,
  All, true,
}
use snii.Common.Status.{ok}
use snii.Encoding.Varint.RoundTrip.{IsU64}
use snii.Encoding.Codec.Many.{concat_map, Reads-lift}
use snii.Encoding.Codec.End.{
  ReadsEnd, ReadsEnd->>=, ReadsEnd-get_eof, ReadsEnd-get_eof_not, Reads→ReadsEnd,
}
use snii.Encoding.Framer.RoundTrip.{section_bytes, length-section_bytes, Reads-read_section}
use snii.Format.Constants.{
  stats_block_type, sampled_term_index_type, dict_block_directory_type, section_refs_type,
}
use snii.Format.Stats.RoundTrip.{IsStatsBlock, payload_bytes, Reads-decode_stats_block}
use snii.Format.PerIndexMeta.Header.{}
use snii.Format.PerIndexMeta.Refs.{
  SectionRefs, IsSectionRefs, refs_bytes, length-refs_bytes, decode_section_refs_bytes,
}
use snii.Format.PerIndexMeta.Sections.{
  Frame, read_frame, Parts, dispatch_frame, take_stats, take_refs, take_frame, sections_loop,
}

abbrev pub frame_of : ℕ → List ℕ → Frame
frame_of t payload = record { section_type = t; frame = section_bytes t payload }

Reads-read_frame_at :
    (t : ℕ) (payload front : List ℕ)
    → IsU64 (length payload)
    → ReadsAt front read_frame (section_bytes t payload) (frame_of t payload)
unfolding read_frame
Reads-read_frame_at t payload front h = ReadsAt-get_position _ (
    ReadsAt-last _ _ (Reads→ReadsAt _ (Reads-read_section t payload h)) (
      ReadsAt-get_position _ (
        ReadsAt-get_slice_from front (section_bytes t payload) [] _ _ together span
          (Reads→ReadsAt _ (Reads-pure (frame_of t payload))))))
  where
    together : front ++ section_bytes t payload ≡ front ++ (section_bytes t payload ++ [])
    together = rw append-nil

    span :
        length (front ++ section_bytes t payload) - length front ≡ length (section_bytes t payload)
    span = omega (arith, length-append front (section_bytes t payload))

Reads-read_frame :
    (t : ℕ) (payload : List ℕ)
    → IsU64 (length payload)
    → Reads read_frame (section_bytes t payload) (frame_of t payload)
Reads-read_frame t payload h = ReadsAt→Reads (λ front. Reads-read_frame_at t payload front h)

loop_ends : (n : ℕ) (parts : Parts) → ReadsEnd (sections_loop (suc n) parts) [] parts
unfolding sections_loop
loop_ends n parts = ReadsEnd-get_eof _ (Reads→ReadsEnd (Reads-pure parts))

pub loop_takes :
    (n t : ℕ) (payload bs : List ℕ) (parts parts' : Parts) {r : Parts}
    → IsU64 (length payload)
    → take_frame (frame_of t payload) parts ≡ ok parts'
    → ReadsEnd (sections_loop n parts') bs r
    → ReadsEnd (sections_loop (suc n) parts) (section_bytes t payload ++ bs) r
unfolding sections_loop
loop_takes n t payload bs parts parts' h e rest =
    ReadsEnd-get_eof_not _
      (omega (arith, length-append (section_bytes t payload) bs, length-section_bytes t payload))
      (ReadsEnd->>= _ _ (Reads-read_frame t payload h) (ReadsEnd->>= _ parts' (Reads-lift e) rest))

-- A framed section of a type that open does not know.
pub record Extra : Type 0 where
  pub section_type : ℕ
  pub payload : List ℕ

abbrev pub extra_bytes : Extra → List ℕ
extra_bytes x = section_bytes x.section_type x.payload

pub record IsUnknown (x : Extra) : Type 0 where
  pub not_stats : x.section_type ≢ stats_block_type
  pub not_sampled : x.section_type ≢ sampled_term_index_type
  pub not_dict : x.section_type ≢ dict_block_directory_type
  pub not_refs : x.section_type ≢ section_refs_type
  pub size : IsU64 (length x.payload)

skips :
    (x : Extra) (parts : Parts)
    → IsUnknown x
    → take_frame (frame_of x.section_type x.payload) parts ≡ ok parts
unfolding take_frame dispatch_frame
skips x parts u = ground (arith, u.not_stats, u.not_sampled, u.not_dict, u.not_refs)

pub loop_skips :
    (n : ℕ) (xs : List Extra) (parts : Parts)
    → All IsUnknown xs
    → length xs < n
    → ReadsEnd (sections_loop n parts) (concat_map extra_bytes xs) parts
loop_skips zero xs parts u h = absurd (omega arith)
loop_skips (suc n) [] parts u h = loop_ends n parts
loop_skips (suc n) (x ∷ xs) parts (ux, uxs) h =
    loop_takes n x.section_type x.payload _ parts parts ux.size (skips x parts ux)
      (loop_skips n xs parts uxs (omega arith))

module _ (sb : StatsBlock) (refs : SectionRefs) (parts : Parts) where
  pub takes_stats :
      IsStatsBlock sb
      → take_frame (frame_of stats_block_type (payload_bytes sb)) parts
        ≡ ok (record parts { stats = sb; have_stats = true })
  unfolding take_frame take_stats
  takes_stats v = rw (run_get-Reads (Reads-decode_stats_block sb v))

  pub takes_refs :
      IsSectionRefs refs
      → take_frame (frame_of section_refs_type (refs_bytes refs)) parts
        ≡ ok (record parts { section_refs = refs; have_refs = true })
  unfolding take_frame take_refs
  takes_refs v =
      rw
        (run_get-Reads (
          Reads-read_section section_refs_type (refs_bytes refs)
            (omega (arith, length-refs_bytes refs v))))
        (rw (decode_section_refs_bytes refs v))
