-- ===== src/Format/DictEntry/Entry.antt =====
-- DictEntry of core/include/snii/format/dict_entry.h and its flags.
use snii.Common.{
  ◌≡◌, refl, ℕ, Bool, true, false, List, [], bit_and, bit_or, ◌==◌, not, if◌then◌else◌,
}
use snii.Format.Constants.{IndexTier, t1, t2, t3}
use snii.Format.FrqRegion.{FrqRegionMeta, no_region_meta}
use snii.Format.SampledIndex.{Term}

pub data DictEntryKind : Type 0 where
  pod_ref inline : DictEntryKind

pub data DictEntryEnc : Type 0 where
  slim windowed : DictEntryEnc

pub record DictEntry : Type 0 where
  pub term : Term
  pub kind : DictEntryKind
  pub enc : DictEntryEnc
  pub has_sb : Bool
  pub df : ℕ
  pub ttf_delta : ℕ
  pub max_freq : ℕ
  pub frq_off_delta : ℕ
  pub frq_len : ℕ
  pub prelude_len : ℕ
  pub frq_docs_len : ℕ
  pub prx_off_delta : ℕ
  pub prx_len : ℕ
  pub dd_meta : FrqRegionMeta
  pub freq_meta : FrqRegionMeta
  pub inline_dd_disk_len : ℕ
  pub frq_bytes : List ℕ
  pub prx_bytes : List ℕ

-- `DictEntry{}`
abbrev pub no_entry : DictEntry
no_entry = record {
  term = [];
  kind = pod_ref;
  enc = slim;
  has_sb = false;
  df = 0;
  ttf_delta = 0;
  max_freq = 0;
  frq_off_delta = 0;
  frq_len = 0;
  prelude_len = 0;
  frq_docs_len = 0;
  prx_off_delta = 0;
  prx_len = 0;
  dd_meta = no_region_meta;
  freq_meta = no_region_meta;
  inline_dd_disk_len = 0;
  frq_bytes = [];
  prx_bytes = [];
}

-- dict_flags
abbrev pub kind_flag : ℕ
kind_flag = 1

abbrev pub enc_flag : ℕ
enc_flag = 2

abbrev pub has_sb_flag : ℕ
has_sb_flag = 4

abbrev kind_bit : DictEntryKind → ℕ
kind_bit pod_ref = 0
kind_bit inline = kind_flag

abbrev enc_bit : DictEntryEnc → ℕ
enc_bit slim = 0
enc_bit windowed = enc_flag

abbrev flag_bits : DictEntryKind → DictEntryEnc → Bool → ℕ
flag_bits k c sb = bit_or (bit_or (kind_bit k) (enc_bit c)) (if sb then has_sb_flag else 0)

unfoldable pub pack_flags : DictEntry → ℕ
pack_flags e = flag_bits e.kind e.enc e.has_sb

unfoldable pub apply_flags : ℕ → DictEntry → DictEntry
apply_flags f e = record e {
  kind = if bit_and f kind_flag == 0 then pod_ref else inline;
  enc = if bit_and f enc_flag == 0 then slim else windowed;
  has_sb = not (bit_and f has_sb_flag == 0);
}

flag_bits-apply :
    (k : DictEntryKind) (c : DictEntryEnc) (sb : Bool) (e : DictEntry)
    → apply_flags (flag_bits k c sb) e ≡ record e { kind = k; enc = c; has_sb = sb }
unfolding apply_flags
flag_bits-apply pod_ref slim false e = refl
flag_bits-apply pod_ref slim true e = refl
flag_bits-apply pod_ref windowed false e = refl
flag_bits-apply pod_ref windowed true e = refl
flag_bits-apply inline slim false e = refl
flag_bits-apply inline slim true e = refl
flag_bits-apply inline windowed false e = refl
flag_bits-apply inline windowed true e = refl

pub apply_flags-pack_flags :
    (e out : DictEntry)
    → apply_flags (pack_flags e) out ≡ record out { kind = e.kind; enc = e.enc; has_sb = e.has_sb }
unfolding pack_flags
apply_flags-pack_flags e out = flag_bits-apply e.kind e.enc e.has_sb out

unfoldable pub tier_has_stats : IndexTier → Bool
tier_has_stats t1 = false
tier_has_stats t2 = true
tier_has_stats t3 = true
