-- ===== src/Format/DictEntry/Tests.antt =====
-- Runs of core/src/format/dict_entry.cpp at concrete inputs.
use snii.Format.DictEntry.RoundTrip.{
  body_bytes, decode_dict_entry-encode_dict_entry, stored_entry, IsEncodable,
}
use snii.Encoding.Varint.RoundTrip.{IsU64}
use snii.Common.Digits.{le_bytes}
use snii.Format.DictEntry.Encode.{pack_win_mode, encode_dict_entry}
use snii.Format.DictEntry.Entry.{pack_flags, slim, pod_ref, no_entry, DictEntry, tier_has_stats}
use snii.Format.Constants.{t2}
use snii.Format.SampledIndex.{prefix_loop, common_prefix_len}
use snii.Format.DictEntry.Decode.{decode_dict_entry}
use snii.Encoding.Varint.{encode_varint_loop, encode_varint64}
use snii.Format.FrqRegion.{no_region_meta, FrqRegionMeta}
use snii.Encoding.Codec.{Reads}
use snii.Common.{ℕ, arith, true, List, [], ◌∷◌, length}

abbrev region : ℕ → FrqRegionMeta
region uncomp_len = record no_region_meta { uncomp_len = uncomp_len; crc = 77 }

-- "ab" after "a", with a slim posting elsewhere.
abbrev entry : DictEntry
entry = record no_entry {
  term = 97 ∷ 98 ∷ [];
  kind = pod_ref;
  enc = slim;
  df = 300;
  ttf_delta = 5;
  max_freq = 9;
  frq_off_delta = 1000;
  frq_len = 60;
  frq_docs_len = 40;
  prx_off_delta = 2000;
  prx_len = 80;
  dd_meta = region 50;
  freq_meta = record (region 30) { zstd = true };
}

abbrev prev : List ℕ
prev = 97 ∷ []

body_fits : IsU64 (length (body_bytes entry prev true))
unfolding encode_varint64 encode_varint_loop common_prefix_len prefix_loop pack_flags pack_win_mode
    le_bytes
body_fits = omega arith

entry-IsEncodable : IsEncodable entry prev true
entry-IsEncodable = record {
  term = omega arith;
  stats_fit = record { df = omega arith; ttf_delta = omega arith; max_freq = omega arith };
  regions = record {
    dd_meta = record { uncomp_len = omega arith; crc = omega arith };
    freq_meta = record { uncomp_len = omega arith; crc = omega arith };
    no_freq = λ e. cc;
  };
  locator = record {
    frq_off_delta = omega arith;
    frq_len = omega arith;
    prelude_len = omega arith;
    frq_docs_len = omega arith;
    docs_in_frq = omega arith;
    prx_off_delta = omega arith;
    prx_len = omega arith;
  };
  body = body_fits;
}

decode_dict_entry-encode_dict_entry_example :
    Reads (decode_dict_entry prev t2) (encode_dict_entry entry prev t2 []) (stored_entry entry true)
unfolding tier_has_stats
decode_dict_entry-encode_dict_entry_example =
    decode_dict_entry-encode_dict_entry entry prev t2 entry-IsEncodable
