-- ===== src/Format/FrqRegion.antt =====
-- FrqRegionMeta of core/include/snii/format/frq_pod.h
use snii.Common.{ℕ, Bool, true, false}

pub record FrqRegionMeta : Type 0 where
  pub zstd : Bool
  pub uncomp_len : ℕ
  pub disk_len : ℕ
  pub crc : ℕ
  pub verify_crc : Bool

-- The fields' initial values.
abbrev pub no_region_meta : FrqRegionMeta
no_region_meta = record { zstd = false; uncomp_len = 0; disk_len = 0; crc = 0; verify_crc = true }
