-- ===== src/Format/PerIndexMeta/Suffix.antt =====
-- PerIndexMetaReader::open of core/src/format/per_index_meta.cpp and the bound on the suffix.
use snii.Common.{
  ◌≡◌, refl, arith, ◌<◌, ℕ, List, [], ◌++◌, length, lt→ltb, ltb, ◌||◌, true, append_assoc,
}
use snii.Common.Digits.{le_bytes}
use snii.Common.Status.{fail, corrupt}
use snii.Encoding.Codec.Fails.{
  Fails, Fails->>=, Fails-first, Fails-get_position, Fails-get_remaining, Fails-passes,
  Fails-rejected, run_get-Fails,
}
use snii.Encoding.Codec.Primitives.{Reads-get_fixed16, Reads-get_varint64, Reads-get_varint32}
use snii.Encoding.Crc32c.{crc32c}
use snii.Encoding.Varint.{encode_varint64}
use snii.Encoding.Varint.RoundTrip.{IsU32, IsU64}
use snii.Format.Constants.{meta_format_version}
use snii.Format.PerIndexMeta.Header.{
  MetaHeader, max_suffix_len, decode_header, header_bytes, head_bytes,
}
use snii.Format.PerIndexMeta.Layout.{head_of, sections_bytes, meta_bytes, finish_bytes}
use snii.Format.PerIndexMeta.{Builder, finish, get_meta, open_meta}

Fails-decode_header :
    (h : MetaHeader) (rest : List ℕ)
    → IsU64 h.index_id
    → IsU32 (length h.index_suffix)
    → max_suffix_len < length h.index_suffix
    → Fails [] decode_header
        (header_bytes h ++ rest)
        (corrupt "per_index_meta: suffix_len exceeds bounds")
unfolding decode_header
Fails-decode_header h rest id fits long = rw layout (
    Fails-get_position _ (
      Fails->>= _ _ (Reads-get_fixed16 meta_format_version (omega arith)) (
        Fails-passes _ refl (
          Fails->>= _ _ (Reads-get_varint64 h.index_id id) (
            Fails->>= _ _ (Reads-get_varint32 (length h.index_suffix) fits)
              (Fails-get_remaining _ λ m. Fails-rejected _ (over m)))))))
  where
    over :
        (m : ℕ)
        → (ltb max_suffix_len (length h.index_suffix) || ltb m (length h.index_suffix)) ≡ true
    over m = rw (lt→ltb _ _ long) refl

    layout :
        header_bytes h ++ rest
        ≡ le_bytes 2 meta_format_version
          ++ (encode_varint64 h.index_id
              ++ (encode_varint64 (length h.index_suffix)
                  ++ (h.index_suffix
                      ++ (le_bytes 4 h.flags ++ (le_bytes 4 (crc32c (head_bytes h)) ++ rest)))))
    layout = unfold header_bytes head_bytes in simp append_assoc

-- PerIndexMetaBuilder::finish writes an index suffix of 65537 to 2 ^ 32 - 1 bytes without an error, and
-- PerIndexMetaReader::open refuses what it wrote, with Corruption for the suffix's length, whatever the
-- builder's sections are, if its index id is a uint64.
pub open_meta-finish_long :
    (b : Builder)
    → IsU64 b.index_id
    → max_suffix_len < length b.index_suffix
    → IsU32 (length b.index_suffix)
    → open_meta (finish b []) ≡ fail (corrupt "per_index_meta: suffix_len exceeds bounds")
unfolding open_meta
open_meta-finish_long b id long fits = rw (finish_bytes b fits) (
    unfold meta_bytes get_meta in
    run_get-Fails (Fails-first _ (Fails-decode_header (head_of b) (sections_bytes b) id fits long)))
