-- ===== src/Format/DictEntry/Decode.antt =====
-- decode_dict_entry and skip_dict_entry of core/src/format/dict_entry.cpp; `out` is what has been read
-- so far, and `stats` is tier_has_stats(tier).
use snii.Common.{ℕ, ◌-◌, Bool, true, false, List, length, ltb, ◌==◌, not, bit_and, if◌then◌else◌}
use snii.Common.Status.{corruption}
use snii.Encoding.Source.{
  Get, ◌>>=◌, ◌>>◌, pure, reject_if, get_position, get_remaining, get_u8, get_fixed32, get_varint32,
  get_varint64, get_bytes,
}
use snii.Format.Constants.{IndexTier}
use snii.Format.FrqRegion.{FrqRegionMeta}
use snii.Format.SampledIndex.{Term, read_key}
use snii.Format.DictEntry.Entry.{
  DictEntry, DictEntryKind, pod_ref, inline, DictEntryEnc, slim, windowed, no_entry, apply_flags,
  tier_has_stats,
}

unfoldable pub read_term_key : Term → Get Term
unfolding read_key
read_term_key prev = read_key (corruption "dict_entry: prefix_len exceeds prev_term length") prev

unfoldable pub read_stats : Bool → DictEntry → Get DictEntry
read_stats stats out = do
  df ← get_varint32
  (if stats
      then (do
        ttf_delta ← get_varint64
        max_freq ← get_varint64
        pure (record out { df = df; ttf_delta = ttf_delta; max_freq = max_freq }))
      else pure (record out { df = df }))

-- The length of a region and, if it is stored, its checksum; else the checksum stays `old`.
unfoldable pub get_region : Bool → Bool → ℕ → ℕ → Get FrqRegionMeta
get_region zstd has_crc disk_len old = do
  uncomp_len ← get_varint64
  crc ← (if has_crc then get_fixed32 else pure old)
  pure (record {
    zstd = zstd;
    uncomp_len = uncomp_len;
    disk_len = disk_len;
    crc = crc;
    verify_crc = has_crc;
  })

unfoldable pub read_region_meta : Bool → Bool → ℕ → ℕ → DictEntry → Get DictEntry
read_region_meta stats has_crc dd_disk_len freq_disk_len out = do
  mode ← get_u8
  reject_if (not (bit_and mode 0xFFFFFFFC == 0)) (corruption "dict_entry: unknown win_mode bits")
  dd_meta ← get_region (not (bit_and mode 1 == 0)) has_crc dd_disk_len out.dd_meta.crc
  (if stats
      then (do
        freq_meta ← get_region (not (bit_and mode 2 == 0)) has_crc freq_disk_len out.freq_meta.crc
        pure (record out { dd_meta = dd_meta; freq_meta = freq_meta }))
      else (do
        reject_if (not (bit_and mode 2 == 0))
            (corruption "dict_entry: freq mode set without freq tier")
        pure (record out { dd_meta = dd_meta })))

abbrev pub read_pod_enc : DictEntryEnc → Bool → DictEntry → Get DictEntry
read_pod_enc windowed stats out = do
  prelude_len ← get_varint64
  pure (record out { prelude_len = prelude_len })
read_pod_enc slim stats out = do
  frq_docs_len ← get_varint64
  reject_if (ltb out.frq_len frq_docs_len) (corruption "dict_entry: frq_docs_len exceeds frq_len")
  read_region_meta stats true frq_docs_len (out.frq_len - frq_docs_len)
      (record out { frq_docs_len = frq_docs_len })

abbrev pub read_prx_ref : Bool → DictEntry → Get DictEntry
read_prx_ref true out = do
  prx_off_delta ← get_varint64
  prx_len ← get_varint64
  pure (record out { prx_off_delta = prx_off_delta; prx_len = prx_len })
read_prx_ref false out = pure out

unfoldable pub read_pod_ref : Bool → DictEntry → Get DictEntry
read_pod_ref stats out = do
  frq_off_delta ← get_varint64
  frq_len ← get_varint64
  out' ←
      read_pod_enc out.enc stats (record out { frq_off_delta = frq_off_delta; frq_len = frq_len })
  read_prx_ref stats out'

unfoldable pub read_byte_blob : Get (List ℕ)
read_byte_blob = do len ← get_varint64; get_bytes len

abbrev pub read_prx_bytes : Bool → DictEntry → Get DictEntry
read_prx_bytes true out = do prx_bytes ← read_byte_blob; pure (record out { prx_bytes = prx_bytes })
read_prx_bytes false out = pure out

unfoldable pub read_inline : Bool → DictEntry → Get DictEntry
read_inline stats out = do
  frq_bytes ← read_byte_blob
  inline_dd_disk_len ← get_varint64
  reject_if (ltb (length frq_bytes) inline_dd_disk_len)
      (corruption "dict_entry: inline_dd_disk_len exceeds frq_bytes")
  out' ←
      read_region_meta stats false inline_dd_disk_len (length frq_bytes - inline_dd_disk_len)
        (record out { frq_bytes = frq_bytes; inline_dd_disk_len = inline_dd_disk_len })
  read_prx_bytes stats out'

abbrev pub read_kind : DictEntryKind → Bool → DictEntry → Get DictEntry
read_kind inline stats out = read_inline stats out
read_kind pod_ref stats out = read_pod_ref stats out

unfoldable pub read_locator : Bool → DictEntry → Get DictEntry
read_locator stats out = read_kind out.kind stats out

unfoldable pub read_entry_len : Get ℕ
read_entry_len = do
  total ← get_varint64
  left ← get_remaining
  reject_if (ltb left total) (corruption "dict_entry: entry_len out of range")
  pure total

unfoldable pub read_body : Term → Bool → Get DictEntry
read_body prev_term stats = do
  term ← read_term_key prev_term
  flags ← get_u8
  out ← read_stats stats (apply_flags flags (record no_entry { term = term }))
  read_locator stats out

unfoldable pub decode_dict_entry : Term → IndexTier → Get DictEntry
decode_dict_entry prev_term tier = do
  total ← read_entry_len
  body_start ← get_position
  out ← read_body prev_term (tier_has_stats tier)
  now ← get_position
  reject_if (not (now - body_start == total))
      (corruption "dict_entry: body length does not match entry_len")
  pure out

unfoldable pub skip_dict_entry : Get (List ℕ)
skip_dict_entry = do total ← read_entry_len; get_bytes total
