-- ===== src/Format/DictEntry/Encode.antt =====
-- encode_dict_entry of core/src/format/dict_entry.cpp; `stats` is tier_has_stats(tier).
use snii.Common.{ℕ, Bool, true, false, List, [], length, bit_or, if◌then◌else◌}
use snii.Encoding.Sink.{
  Put, ◌⨾◌, put_nothing, put_u8, put_bytes, put_fixed32, put_varint32, put_varint64,
}
use snii.Format.Constants.{IndexTier}
use snii.Format.FrqRegion.{FrqRegionMeta}
use snii.Format.SampledIndex.{Term, write_term_key}
use snii.Format.DictEntry.Entry.{
  DictEntry, DictEntryKind, pod_ref, inline, DictEntryEnc, slim, windowed, pack_flags,
  tier_has_stats,
}

unfoldable pub write_stats : DictEntry → Bool → Put
write_stats e stats =
    put_varint32 e.df
    ⨾ (if stats then put_varint64 e.ttf_delta ⨾ put_varint64 e.max_freq else put_nothing)

abbrev pub win_mode : Bool → Bool → ℕ
win_mode dd_zstd freq_zstd = bit_or (if dd_zstd then 1 else 0) (if freq_zstd then 2 else 0)

unfoldable pub pack_win_mode : DictEntry → ℕ
pack_win_mode e = win_mode e.dd_meta.zstd e.freq_meta.zstd

-- The length of a region and, if it is stored, its checksum.
unfoldable pub put_region : FrqRegionMeta → Bool → Put
put_region m store_crc =
    put_varint64 m.uncomp_len ⨾ (if store_crc then put_fixed32 m.crc else put_nothing)

unfoldable pub write_region_meta : DictEntry → Bool → Bool → Put
write_region_meta e stats store_crc =
    put_u8 (pack_win_mode e)
    ⨾ put_region e.dd_meta store_crc
    ⨾ (if stats then put_region e.freq_meta store_crc else put_nothing)

abbrev pub write_pod_enc : DictEntryEnc → DictEntry → Bool → Put
write_pod_enc windowed e stats = put_varint64 e.prelude_len
write_pod_enc slim e stats = put_varint64 e.frq_docs_len ⨾ write_region_meta e stats true

unfoldable pub write_pod_ref : DictEntry → Bool → Put
write_pod_ref e stats =
    put_varint64 e.frq_off_delta
    ⨾ put_varint64 e.frq_len
    ⨾ write_pod_enc e.enc e stats
    ⨾ (if stats then put_varint64 e.prx_off_delta ⨾ put_varint64 e.prx_len else put_nothing)

unfoldable pub put_blob : List ℕ → Put
put_blob bytes = put_varint64 (length bytes) ⨾ put_bytes bytes

unfoldable pub write_inline : DictEntry → Bool → Put
write_inline e stats =
    put_blob e.frq_bytes
    ⨾ put_varint64 e.inline_dd_disk_len
    ⨾ write_region_meta e stats false
    ⨾ (if stats then put_blob e.prx_bytes else put_nothing)

abbrev pub write_locator : DictEntryKind → DictEntry → Bool → Put
write_locator inline e stats = write_inline e stats
write_locator pod_ref e stats = write_pod_ref e stats

unfoldable pub write_body : DictEntry → Term → Bool → Put
write_body e prev stats =
    write_term_key e.term prev
    ⨾ put_u8 (pack_flags e)
    ⨾ write_stats e stats
    ⨾ write_locator e.kind e stats

unfoldable pub encode_dict_entry : DictEntry → Term → IndexTier → Put
encode_dict_entry entry prev_term tier =
    put_blob (write_body entry prev_term (tier_has_stats tier) [])
