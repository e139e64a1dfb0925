-- ===== src/Format/Bsbf/Sizing.antt =====
-- bsbf_optimal_num_bytes and BsbfBuilder::create of core/src/format/bsbf.cpp. The arithmetic on doubles
-- is a parameter.
use snii.Format.Bsbf.{create_sized, BsbfBuilder}
use snii.Common.Status.{ok, invalid_argument, Result}
use snii.Common.{
  ℕ, zero, suc, ◌-◌, ◌*◌, ◌/◌, ◌%◌, ◌^◌, Bool, ltb, ◌==◌, not, bit_and, ◌&&◌, ◌||◌, if◌then◌else◌,
}

abbrev pub min_bytes : ℕ
min_bytes = 32

abbrev pub max_bytes : ℕ
max_bytes = 128 * 1024 * 1024

-- `while (p < num_bits) p <<= 1;`, `rounds` left
unfoldable pub next_power : ℕ → ℕ → ℕ → ℕ
next_power zero num_bits p = p
next_power (suc rounds) num_bits p =
    let next = next_power rounds num_bits (p * 2 % 2 ^ 32) in if ltb p num_bits then next else p

-- What follows the formula, with the 32 rounds that the loop has at most.
unfoldable pub round_num_bytes : ℕ → ℕ
round_num_bytes bits =
    let at_least = if ltb bits (min_bytes * 2 ^ 3) then min_bytes * 2 ^ 3 else bits in
    let power =
      if not (bit_and at_least (at_least - 1) == 0) then next_power 32 at_least 1 else at_least in
    (if ltb (max_bytes * 2 ^ 3) power then max_bytes * 2 ^ 3 else power) / 2 ^ 3

-- The operations on `double` that the source uses: `of_nat` is a literal or the conversion of a
-- uint32, `truncate` is static_cast<uint32_t>, and `log` and `pow` are those of std.
pub record Doubles (Double : Type 0) : Type 0 where
  pub of_nat : ℕ → Double
  pub negate : Double → Double
  pub times : Double → Double → Double
  pub minus : Double → Double → Double
  pub divide : Double → Double → Double
  pub pow : Double → Double → Double
  pub log : Double → Double
  pub less : Double → Double → Bool
  pub truncate : Double → ℕ

module _ {Double : Type 0} (d : Doubles Double) where
  open d use {of_nat, negate, times, minus, divide, pow, log, less, truncate}

  -- `-8.0 * ndv / std::log(1 - std::pow(fpp, 1.0 / 8))`
  unfoldable pub optimal_num_of_bits : ℕ → Double → Double
  optimal_num_of_bits ndv fpp =
      divide (times (negate (of_nat 8)) (of_nat ndv))
        (log (minus (of_nat 1) (pow fpp (divide (of_nat 1) (of_nat 8)))))

  unfoldable pub clamp_bits : Double → ℕ
  clamp_bits m =
      if less m (of_nat 0) || less (times (of_nat max_bytes) (of_nat 8)) m
      then max_bytes * 2 ^ 3
      else truncate m

  unfoldable pub bsbf_optimal_num_bytes : ℕ → Double → ℕ
  bsbf_optimal_num_bytes ndv fpp = round_num_bytes (clamp_bits (optimal_num_of_bits ndv fpp))

  unfoldable pub create : ℕ → Double → Result BsbfBuilder
  create ndv fpp =
      let ndv' = if ndv == 0 then 1 else ndv in
      if not (less (of_nat 0) fpp && less fpp (of_nat 1))
      then invalid_argument "bsbf: fpp out of (0,1)"
      else ok (create_sized ndv' (bsbf_optimal_num_bytes ndv' fpp))
