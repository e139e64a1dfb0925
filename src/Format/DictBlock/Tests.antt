-- ===== src/Format/DictBlock/Tests.antt =====
-- Runs of core/src/format/dict_block.cpp at concrete inputs.
use snii.Format.Constants.{t2}
use snii.Encoding.Varint.{
  encode_varint_loop, encode_varint32, encode_varint64, varint_len_loop, varint_len,
}
use snii.Encoding.Sink.{
  ◌⨾◌, put_nothing, put_many, put_fixed_loop, put_fixed32, put_bytes, put_varint64, put_varint32,
  put_u8,
}
use snii.Format.DictEntry.Encode.{
  put_blob, pack_win_mode, put_region, write_region_meta, write_pod_ref, write_stats, write_body,
  encode_dict_entry,
}
use snii.Format.DictEntry.Entry.{tier_has_stats, pack_flags, no_entry, DictEntry}
use snii.Format.SampledIndex.{prefix_loop, common_prefix_len, write_term_key, Term}
use snii.Format.DictBlock.Locate.{locate_anchor_lem, IsAnchorOf}
use snii.Format.FrqRegion.{no_region_meta}
use snii.Format.DictBlock.{estimate_body, estimate_entry_bytes}
use snii.Format.DictBlock.Reader.{locate_loop, locate_anchor}
use snii.Common.{ℕ, ◌≡◌, ◌⊎◌, refl, true, List, [], ◌∷◌, length, get_or, ltb, bytes_lt, none, some}

abbrev terms : List Term
terms = (97 ∷ []) ∷ (99 ∷ []) ∷ (101 ∷ []) ∷ []

located : locate_anchor terms (100 ∷ []) ≡ some 1
unfolding locate_anchor locate_loop
located = refl

locate_anchor_lem_example :
    ((locate_anchor terms (100 ∷ []) ≡ none)
      × ((terms ≡ []) ⊎ (bytes_lt (100 ∷ []) (get_or terms 0 []) ≡ true)))
    ⊎ ((i : ℕ) × (locate_anchor terms (100 ∷ []) ≡ some i) × IsAnchorOf terms (100 ∷ []) i)
locate_anchor_lem_example = locate_anchor_lem terms (100 ∷ [])

abbrev max_64 : ℕ
max_64 = 0xFFFFFFFFFFFFFFFF

-- An entry of large numbers takes more than its estimate.
abbrev large : DictEntry
large = record no_entry {
  df = 300;
  ttf_delta = max_64;
  max_freq = max_64;
  frq_off_delta = max_64;
  frq_len = max_64;
  frq_docs_len = max_64;
  prx_off_delta = max_64;
  prx_len = max_64;
  dd_meta = record no_region_meta { uncomp_len = max_64 };
  freq_meta = record no_region_meta { uncomp_len = max_64 };
}

above_estimate : ltb (estimate_entry_bytes large) (length (encode_dict_entry large [] t2 [])) ≡ true
unfolding estimate_entry_bytes estimate_body varint_len varint_len_loop encode_dict_entry write_body
    write_term_key common_prefix_len prefix_loop pack_flags write_stats write_pod_ref
    write_region_meta put_region pack_win_mode tier_has_stats put_blob put_u8 put_varint32
    put_varint64 put_bytes put_fixed32 put_fixed_loop put_many put_nothing ◌⨾◌ encode_varint64
    encode_varint32 encode_varint_loop
above_estimate = refl
