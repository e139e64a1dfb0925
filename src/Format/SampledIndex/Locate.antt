-- ===== src/Format/SampledIndex/Locate.antt =====
-- SampledTermIndexReader::locate of core/src/format/sampled_term_index.cpp.
use snii.Common.{ℕ, ◌+◌, ◌<◌, ◌≤◌, ◌≡◌, List, [], length, get_or, true, false, bytes_lt}
use snii.Format.SampledIndex.{Term}

-- Every term before the bound is not above the target, and the term at the bound is.
record IsUpperBound (target : Term) (ts : List Term) (n : ℕ) : Type 0 where
  within : n ≤ length ts
  below : (j : ℕ) → j < n → bytes_lt target (get_or ts j []) ≡ false
  above : n < length ts → bytes_lt target (get_or ts n []) ≡ true

-- Block `i` may hold the target: its first term and all before are not above the target, and the
-- first term of the next block, if there is one, is.
pub record IsBlockOf (target : Term) (ts : List Term) (i : ℕ) : Type 0 where
  pub within : i < length ts
  pub below : (j : ℕ) → j ≤ i → bytes_lt target (get_or ts j []) ≡ false
  pub above : i + 1 < length ts → bytes_lt target (get_or ts (i + 1) []) ≡ true
