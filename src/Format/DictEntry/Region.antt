-- ===== src/Format/DictEntry/Region.antt =====
-- The statistics and the region metadata of a dictionary entry (core/src/format/dict_entry.cpp): what is
-- written and read.
use snii.Common.{
  ℕ, ◌≡◌, refl, Bool, true, false, not, List, [], ◌∷◌, ◌++◌, ◌==◌, bit_and, if◌then◌else◌,
}
use snii.Common.Digits.{le_bytes}
use snii.Encoding.Varint.{encode_varint64}
use snii.Encoding.Varint.RoundTrip.{IsU32, IsU64}
use snii.Encoding.Codec.{
  Writes, Writes-⨾, Writes-nothing, Reads, Reads->>=, Reads-last, Reads-reject, Reads-pure,
}
use snii.Encoding.Codec.Primitives.{
  Writes-put_u8, Writes-put_varint32, Writes-put_varint64, Writes-put_fixed32, Reads-get_u8,
  Reads-get_varint32, Reads-get_varint64, Reads-get_fixed32,
}
use snii.Format.FrqRegion.{FrqRegionMeta}
use snii.Format.DictEntry.Entry.{DictEntry}
use snii.Format.DictEntry.Encode.{
  write_stats, win_mode, pack_win_mode, put_region, write_region_meta,
}
use snii.Format.DictEntry.Decode.{read_stats, get_region, read_region_meta}

abbrev pub stats_bytes : DictEntry → Bool → List ℕ
stats_bytes e stats =
    encode_varint64 e.df
    ++ (if stats then encode_varint64 e.ttf_delta ++ encode_varint64 e.max_freq else [])

-- `out` with the statistics that the tier stores.
abbrev pub with_stats : DictEntry → Bool → DictEntry → DictEntry
with_stats e true out = record out { df = e.df; ttf_delta = e.ttf_delta; max_freq = e.max_freq }
with_stats e false out = record out { df = e.df }

pub Writes-write_stats :
    (e : DictEntry) (stats : Bool) → Writes (write_stats e stats) (stats_bytes e stats)
unfolding write_stats
Writes-write_stats e true =
    Writes-⨾ (Writes-put_varint32 _) (Writes-⨾ (Writes-put_varint64 _) (Writes-put_varint64 _))
Writes-write_stats e false = Writes-⨾ (Writes-put_varint32 _) Writes-nothing

pub record HasStats (e : DictEntry) : Type 0 where
  pub df : IsU32 e.df
  pub ttf_delta : IsU64 e.ttf_delta
  pub max_freq : IsU64 e.max_freq

pub Reads-read_stats :
    (e : DictEntry) (stats : Bool) (out : DictEntry)
    → HasStats e
    → Reads (read_stats stats out) (stats_bytes e stats) (with_stats e stats out)
unfolding read_stats
Reads-read_stats e true out v = Reads->>= _ _ (Reads-get_varint32 _ v.df) (
    Reads->>= _ _ (Reads-get_varint64 _ v.ttf_delta)
      (Reads-last _ _ (Reads-get_varint64 _ v.max_freq) (Reads-pure _)))
Reads-read_stats e false out v = Reads->>= _ _ (Reads-get_varint32 _ v.df) (Reads-pure _)

abbrev pub region_bytes : FrqRegionMeta → Bool → List ℕ
region_bytes m has_crc = encode_varint64 m.uncomp_len ++ (if has_crc then le_bytes 4 m.crc else [])

-- What is read of a region's metadata: a checksum that is not stored stays `old`.
abbrev pub stored_region : FrqRegionMeta → Bool → ℕ → ℕ → FrqRegionMeta
stored_region m has_crc disk_len old = record {
  zstd = m.zstd;
  uncomp_len = m.uncomp_len;
  disk_len = disk_len;
  crc = if has_crc then m.crc else old;
  verify_crc = has_crc;
}

pub record IsRegion (m : FrqRegionMeta) : Type 0 where
  pub uncomp_len : IsU64 m.uncomp_len
  pub crc : IsU32 m.crc

Writes-put_region :
    (m : FrqRegionMeta) (has_crc : Bool) → Writes (put_region m has_crc) (region_bytes m has_crc)
unfolding put_region
Writes-put_region m true = Writes-⨾ (Writes-put_varint64 _) (Writes-put_fixed32 _)
Writes-put_region m false = Writes-⨾ (Writes-put_varint64 _) Writes-nothing

Reads-get_region :
    (m : FrqRegionMeta) (has_crc : Bool) (disk_len old : ℕ)
    → IsRegion m
    → Reads
        (get_region m.zstd has_crc disk_len old)
        (region_bytes m has_crc)
        (stored_region m has_crc disk_len old)
unfolding get_region
Reads-get_region m true disk_len old v =
    Reads->>= _ _ (Reads-get_varint64 _ v.uncomp_len)
      (Reads-last _ _ (Reads-get_fixed32 _ v.crc) (Reads-pure _))
Reads-get_region m false disk_len old v =
    Reads->>= _ _ (Reads-get_varint64 _ v.uncomp_len)
      (Reads-last _ _ (Reads-pure old) (Reads-pure _))

-- The bits of the mode byte.
record ModeBits (dd freq : Bool) : Type 0 where
  known : not (bit_and (win_mode dd freq) 0xFFFFFFFC == 0) ≡ false
  dd_bit : not (bit_and (win_mode dd freq) 1 == 0) ≡ dd
  freq_bit : not (bit_and (win_mode dd freq) 2 == 0) ≡ freq

mode_bits : (dd freq : Bool) → ModeBits dd freq
mode_bits false false = record { known = refl; dd_bit = refl; freq_bit = refl }
mode_bits false true = record { known = refl; dd_bit = refl; freq_bit = refl }
mode_bits true false = record { known = refl; dd_bit = refl; freq_bit = refl }
mode_bits true true = record { known = refl; dd_bit = refl; freq_bit = refl }

abbrev pub meta_bytes : DictEntry → Bool → Bool → List ℕ
meta_bytes e stats has_crc =
    (pack_win_mode e ∷ [])
    ++ (region_bytes e.dd_meta has_crc ++ (if stats then region_bytes e.freq_meta has_crc else []))

pub Writes-write_region_meta :
    (e : DictEntry) (stats has_crc : Bool)
    → Writes (write_region_meta e stats has_crc) (meta_bytes e stats has_crc)
unfolding write_region_meta
Writes-write_region_meta e true has_crc =
    Writes-⨾ (Writes-put_u8 _)
      (Writes-⨾ (Writes-put_region _ has_crc) (Writes-put_region _ has_crc))
Writes-write_region_meta e false has_crc =
    Writes-⨾ (Writes-put_u8 _) (Writes-⨾ (Writes-put_region _ has_crc) Writes-nothing)

abbrev pub with_regions : DictEntry → Bool → Bool → ℕ → ℕ → DictEntry → DictEntry
with_regions e true has_crc dd_len freq_len out = record out {
  dd_meta = stored_region e.dd_meta has_crc dd_len out.dd_meta.crc;
  freq_meta = stored_region e.freq_meta has_crc freq_len out.freq_meta.crc;
}
with_regions e false has_crc dd_len freq_len out = record out {
  dd_meta = stored_region e.dd_meta has_crc dd_len out.dd_meta.crc;
}

-- Without statistics there is no frequency region, and so none that is compressed.
pub record HasRegions (e : DictEntry) (stats : Bool) : Type 0 where
  pub dd_meta : IsRegion e.dd_meta
  pub freq_meta : IsRegion e.freq_meta
  pub no_freq : stats ≡ false → e.freq_meta.zstd ≡ false

pub Reads-read_region_meta :
    (e : DictEntry) (stats has_crc : Bool) (dd_len freq_len : ℕ) (out : DictEntry)
    → HasRegions e stats
    → Reads
        (read_region_meta stats has_crc dd_len freq_len out)
        (meta_bytes e stats has_crc)
        (with_regions e stats has_crc dd_len freq_len out)
unfolding read_region_meta pack_win_mode
Reads-read_region_meta e true has_crc dd_len freq_len out v =
    let bits = mode_bits e.dd_meta.zstd e.freq_meta.zstd in
    Reads->>= _ _ (Reads-get_u8 _) (
      Reads-reject _ bits.known (
        rw (bits.dd_bit, bits.freq_bit)
          (Reads->>= _ _ (Reads-get_region e.dd_meta has_crc dd_len _ v.dd_meta) (
            Reads-last _ _ (Reads-get_region e.freq_meta has_crc freq_len _ v.freq_meta)
              (Reads-pure _)))))
Reads-read_region_meta e false has_crc dd_len freq_len out v =
    let bits = mode_bits e.dd_meta.zstd e.freq_meta.zstd in
    Reads->>= _ _ (Reads-get_u8 _) (
      Reads-reject _ bits.known (
        rw (bits.dd_bit, bits.freq_bit)
          (Reads->>= _ _ (Reads-get_region e.dd_meta has_crc dd_len _ v.dd_meta)
            (Reads-reject _ (v.no_freq refl) (Reads-pure _)))))
