-- ===== src/Format/DictBlock.antt =====
-- core/include/snii/format/dict_block.h, core/src/format/dict_block.cpp: the builder.
pub mod Reader
pub mod Locate
mod Tests
use snii.Format.DictEntry.Encode.{encode_dict_entry}
use snii.Encoding.Crc32c.{crc32c}
use snii.Encoding.Sink.{
  put_u8, put_nothing, ByteSink, put_bytes, put_fixed32, put_varint64, ◌⨾◌, Put,
}
use snii.Encoding.Varint.{varint_len}
use snii.Format.DictEntry.Entry.{DictEntryKind, DictEntry, pod_ref, inline}
use snii.Format.Constants.{IndexTier}
use snii.Format.SampledIndex.{Term}
use snii.Common.{
  ℕ, zero, suc, ◌+◌, ◌*◌, ◌%◌, ◌^◌, Bool, true, false, List, [], ◌∷◌, ◌++◌, length, ◌==◌,
  if◌then◌else◌,
}

abbrev pub format_ver : ℕ
format_ver = 1

abbrev pub has_positions_flag : ℕ
has_positions_flag = 1

abbrev pub footer_bytes : ℕ
footer_bytes = 4

abbrev pub n_anchors_bytes : ℕ
n_anchors_bytes = 4

abbrev pub anchor_off_bytes : ℕ
anchor_off_bytes = 4

abbrev locator_estimate : DictEntryKind → DictEntry → ℕ
locator_estimate inline e = 10 + length e.frq_bytes + (10 + length e.prx_bytes)
locator_estimate pod_ref e = 10 * 5

-- The body of estimate_entry_bytes.
unfoldable pub estimate_body : DictEntry → ℕ
estimate_body e =
    varint_len (length e.term % 2 ^ 32)
    + varint_len (length e.term % 2 ^ 32)
    + length e.term
    + 1
    + 10
    + 10
    + 10
    + locator_estimate e.kind e

unfoldable pub estimate_entry_bytes : DictEntry → ℕ
estimate_entry_bytes e = varint_len (estimate_body e) + estimate_body e

pub record DictBlockBuilder : Type 0 where
  pub tier : IndexTier
  pub has_positions : Bool
  pub frq_base : ℕ
  pub prx_base : ℕ
  pub anchor_interval : ℕ
  pub n_entries : ℕ
  pub entries : List DictEntry
  pub prev_term : Term
  pub entries_est : ℕ
  pub n_anchors : ℕ

unfoldable pub new_builder : IndexTier → Bool → ℕ → ℕ → ℕ → DictBlockBuilder
new_builder tier has_positions frq_base prx_base anchor_interval = record {
  tier = tier;
  has_positions = has_positions;
  frq_base = frq_base;
  prx_base = prx_base;
  anchor_interval = if anchor_interval == 0 then 1 else anchor_interval;
  n_entries = 0;
  entries = [];
  prev_term = [];
  entries_est = 0;
  n_anchors = 0;
}

unfoldable pub is_anchor : DictBlockBuilder → ℕ → Bool
is_anchor b index = index % b.anchor_interval == 0

unfoldable pub add_entry : DictEntry → DictBlockBuilder → DictBlockBuilder
add_entry entry b = record b {
  n_anchors = if is_anchor b b.n_entries then b.n_anchors + 1 else b.n_anchors;
  entries_est = b.entries_est + estimate_entry_bytes entry;
  entries = b.entries ++ (entry ∷ []);
  prev_term = entry.term;
  n_entries = (b.n_entries + 1) % 2 ^ 32;
}

unfoldable pub estimated_bytes : DictBlockBuilder → ℕ
estimated_bytes b =
    varint_len b.n_entries
    + 2
    + varint_len b.frq_base
    + (if b.has_positions then varint_len b.prx_base else 0)
    + b.entries_est
    + (b.n_anchors * anchor_off_bytes + n_anchors_bytes)
    + footer_bytes

unfoldable pub put_block_header : DictBlockBuilder → Put
put_block_header b =
    put_varint64 b.n_entries
    ⨾ put_u8 format_ver
    ⨾ put_u8 (if b.has_positions then has_positions_flag else 0)
    ⨾ put_varint64 b.frq_base
    ⨾ (if b.has_positions then put_varint64 b.prx_base else put_nothing)

-- The loop over the entries, from number `i` on: the body so far and the anchors' offsets.
unfoldable pub put_entries :
    DictBlockBuilder → ℕ → Term → List DictEntry → ByteSink × List ℕ → ByteSink × List ℕ
put_entries b i prev [] (body, offsets) = (body, offsets)
put_entries b i prev (e ∷ es) (body, offsets) =
    let anchor = is_anchor b i in
    put_entries b (i + 1) e.term es (
      encode_dict_entry e (if anchor then [] else prev) b.tier body,
      if anchor then offsets ++ (length body % 2 ^ 32 ∷ []) else offsets,
    )

unfoldable pub put_offsets : List ℕ → Put
put_offsets [] = put_nothing
put_offsets (off ∷ offsets) = put_fixed32 off ⨾ put_offsets offsets

unfoldable pub block_body : DictBlockBuilder → List ℕ
block_body b =
    let written = put_entries b 0 [] b.entries (put_block_header b [], []) in
    (put_offsets (written.1) ⨾ put_fixed32 (length (written.1) % 2 ^ 32)) (written.0)

unfoldable pub finish : DictBlockBuilder → Put
finish b = put_bytes (block_body b) ⨾ put_fixed32 (crc32c (block_body b))
