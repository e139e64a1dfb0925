-- ===== src/Format/Constants.antt =====
-- core/include/snii/format/format_constants.h
use snii.Common.{ℕ, Bool, true, false}

abbrev pub container_magic : ℕ
container_magic = 0x49494E53

abbrev pub tail_magic : ℕ
tail_magic = 0x4C494154

abbrev pub format_version : ℕ
format_version = 1

abbrev pub min_reader_version : ℕ
min_reader_version = 1

abbrev pub meta_format_version : ℕ
meta_format_version = 1

-- SectionType
abbrev pub stats_block_type : ℕ
stats_block_type = 1

abbrev pub sampled_term_index_type : ℕ
sampled_term_index_type = 2

abbrev pub dict_block_directory_type : ℕ
dict_block_directory_type = 3

abbrev pub section_refs_type : ℕ
section_refs_type = 5

abbrev pub logical_index_directory_type : ℕ
logical_index_directory_type = 7

pub data IndexConfig : Type 0 where
  docs_only docs_positions docs_positions_scoring positions_offsets : IndexConfig

pub data IndexTier : Type 0 where
  t1 t2 t3 : IndexTier

unfoldable pub tier_of : IndexConfig → IndexTier
tier_of docs_only = t1
tier_of docs_positions = t2
tier_of docs_positions_scoring = t3
tier_of positions_offsets = t3

unfoldable pub has_positions : IndexConfig → Bool
has_positions docs_only = false
has_positions docs_positions = true
has_positions docs_positions_scoring = true
has_positions positions_offsets = true

unfoldable pub has_scoring : IndexConfig → Bool
has_scoring docs_positions_scoring = true
has_scoring docs_only = false
has_scoring docs_positions = false
has_scoring positions_offsets = false
