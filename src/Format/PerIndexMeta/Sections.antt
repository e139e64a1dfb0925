-- ===== src/Format/PerIndexMeta/Sections.antt =====
-- The loop of PerIndexMetaReader::open over the framed sections.
use snii.Common.{ℕ, zero, suc, ◌-◌, Bool, true, false, [], ◌==◌, if◌then◌else◌}
use snii.Common.Status
use snii.Common.Status.{Result, Status, ok, fail, internal_code}
use snii.Encoding.Source.{
  Slice, Get, ◌>>=◌, pure, lift, run_get, get_eof, get_position, get_slice_from,
}
use snii.Encoding.Framer.{read_section}
use snii.Format.Constants.{
  stats_block_type, sampled_term_index_type, dict_block_directory_type, section_refs_type,
}
use snii.Format.Stats.{StatsBlock, decode_stats_block}
use snii.Format.PerIndexMeta.Refs.{SectionRefs, no_refs, decode_section_refs}

-- A type and the full frame around its payload.
pub record Frame : Type 0 where
  pub section_type : ℕ
  pub frame : Slice

unfoldable pub read_frame : Get Frame
read_frame = do
  start ← get_position
  sec ← read_section
  now ← get_position
  frame ← get_slice_from start (now - start)
  pure (record { section_type = sec.section_type; frame = frame })

-- What the loop has found: fields of the reader and the two flags.
pub record Parts : Type 0 where
  pub stats : StatsBlock
  pub section_refs : SectionRefs
  pub sampled_term_index : Slice
  pub dict_block_directory : Slice
  pub have_stats : Bool
  pub have_refs : Bool

abbrev pub no_parts : Parts
no_parts = record {
  stats = record {
    doc_count = 0;
    indexed_doc_count = 0;
    term_count = 0;
    sum_total_term_freq = 0;
    null_count = 0;
  };
  section_refs = no_refs;
  sampled_term_index = [];
  dict_block_directory = [];
  have_stats = false;
  have_refs = false;
}

unfoldable pub dispatch_frame : Frame → Parts → Parts
dispatch_frame f parts =
    if f.section_type == sampled_term_index_type
    then record parts { sampled_term_index = f.frame }
    else if f.section_type == dict_block_directory_type
    then record parts { dict_block_directory = f.frame }
    else parts

-- A statistics section is read from its frame again.
unfoldable pub take_stats : Slice → Parts → Result Parts
take_stats frame parts =
    Status.◌>>=◌ (run_get decode_stats_block frame)
      (λ stats. ok (record parts { stats = stats; have_stats = true }))

unfoldable pub take_refs : Slice → Parts → Result Parts
take_refs frame parts = Status.◌>>=◌ (run_get read_section frame) (λ sec.
    Status.◌>>=◌ (decode_section_refs sec.payload)
      (λ refs. ok (record parts { section_refs = refs; have_refs = true })))

-- The body of the loop behind read_frame.
unfoldable pub take_frame : Frame → Parts → Result Parts
take_frame f parts =
    if f.section_type == stats_block_type
    then take_stats f.frame parts
    else if f.section_type == section_refs_type
    then take_refs f.frame parts
    else ok (dispatch_frame f parts)

-- No failure of the code: the rounds granted to the loop are used up.
abbrev pub out_of_rounds : Status
out_of_rounds = record { code = internal_code; message = "out of rounds" }

-- `while (!src.eof())`
unfoldable pub sections_loop : ℕ → Parts → Get Parts
sections_loop zero parts = lift (fail out_of_rounds)
sections_loop (suc rounds) parts = do
  ended ← get_eof
  (if ended
      then pure parts
      else (do f ← read_frame; parts' ← lift (take_frame f parts); sections_loop rounds parts'))
