-- ===== src/Format/Bsbf/Sizes.antt =====
-- The size of a filter (core/src/format/bsbf.cpp, bsbf_optimal_num_bytes).
use snii.Format.Bsbf.Powers.{next_power_lem, IsPower-fuel, IsPower}
use snii.Format.Bsbf.Keeps.{insert-IsBuilt}
use snii.Format.Bsbf.{insert, BsbfBuilder, create_sized}
use snii.Format.Bsbf.Filter.{replicate-IsWord, IsBuilt}
use native.Mathlib.Nat.{one-le-pow}
use snii.Common.Status.{ok}
use snii.Common.{
  false, length-replicate, not, le→ltb, ap, if◌then◌else◌, ℕ, ◌-◌, ◌*◌, ◌/◌, ◌^◌, ◌≤◌, ◌<◌, ◌≡◌,
  ◌⊎◌, inl, inr, refl, arith, true, Bool-cases, ltb, ltb→lt, bit_and, ◌==◌, ==_iff,
}
use snii.Format.Bsbf.Sizing.{
  Doubles, optimal_num_of_bits, bsbf_optimal_num_bytes, clamp_bits, create, round_num_bytes,
  max_bytes, next_power,
}
use snii.Common.Digits.{pow-add, pow_mono}

-- The number of bytes of a filter: a power of two from 32 bytes to 128 MiB.
pub record IsSize (n : ℕ) : Type 0 where
  pub exponent : ℕ
  pub is_power : n ≡ 2 ^ exponent
  pub low : 5 ≤ exponent
  pub high : exponent ≤ 27

exponent_low : (k : ℕ) → 2 ^ 8 ≤ 2 ^ k → 8 ≤ k
exponent_low k low = elim (Bool-cases (ltb k 8)) [
  | inl small ↦
      absurd (omega (arith, ltb→lt _ _ small, pow_mono k 7 (omega (arith, ltb→lt _ _ small))))
  | inr big ↦ ground (arith, big)
]

exponent_high : (k : ℕ) → 2 ^ k ≤ 2 ^ 30 → k ≤ 30
exponent_high k high = elim (Bool-cases (ltb 30 k)) [
  | inl large ↦ absurd (omega (arith, pow_mono 31 k (omega (arith, ltb→lt _ _ large))))
  | inr small ↦ ground (arith, small)
]

power_of_eight : (k : ℕ) → 8 ≤ k → 2 ^ k ≡ 2 ^ 3 * 2 ^ (k - 3)
power_of_eight k low = rw (← pow-add 3 (k - 3)) (ap (λ (e : ℕ). 2 ^ e) (omega arith))

size_of_power : (k : ℕ) → 2 ^ 8 ≤ 2 ^ k → 2 ^ k ≤ 2 ^ 30 → IsSize (2 ^ k / 2 ^ 3)
size_of_power k low high = record {
  exponent = k - 3;
  is_power = omega (arith, power_of_eight k (exponent_low k low));
  low = omega (arith, exponent_low k low);
  high = omega (arith, exponent_high k high);
}

-- A size for a number of bits: it holds them, and unless it is the least one, half of it does not.
pub record IsSizeFor (bits n : ℕ) : Type 0 where
  pub size : IsSize n
  pub enough : bits ≤ 8 * n
  pub least : (n ≡ 32) ⊎ (4 * n < bits)

IsSizeFor-exponent :
    (bits k : ℕ)
    → bits ≤ 2 ^ k
    → (2 ^ k ≡ 2 ^ 8) ⊎ (2 ^ k < 2 * bits)
    → 2 ^ 8 ≤ 2 ^ k
    → 2 ^ k ≤ 2 ^ 30
    → IsSizeFor bits (2 ^ k / 2 ^ 3)
IsSizeFor-exponent bits k enough least low high = record {
  size = size_of_power k low high;
  enough = omega (arith, power_of_eight k (exponent_low k low));
  least = ground (arith, least, power_of_eight k (exponent_low k low));
}

IsSizeFor-power :
    (bits p : ℕ)
    → IsPower p
    → bits ≤ p
    → (p ≡ 2 ^ 8) ⊎ (p < 2 * bits)
    → 2 ^ 8 ≤ p
    → p ≤ 2 ^ 30
    → IsSizeFor bits ((if ltb (max_bytes * 2 ^ 3) p then max_bytes * 2 ^ 3 else p) / 2 ^ 3)
IsSizeFor-power bits p v enough least low high =
    rw (le→ltb (max_bytes * 2 ^ 3) p high, v.is_power)
      (IsSizeFor-exponent bits v.exponent (rw (← v.is_power) enough) (rw (← v.is_power) least)
        (rw (← v.is_power) low) (rw (← v.is_power) high))

record IsRounded (at_least power : ℕ) : Type 0 where
  is_power : IsPower power
  enough : at_least ≤ power
  least : (power ≡ at_least) ⊎ (power < 2 * at_least)
  high : power ≤ 2 ^ 30

-- The branch on whether the number is a power already.
rounded :
    (a : ℕ)
    → 2 ^ 8 ≤ a
    → a ≤ 2 ^ 30
    → IsRounded a (if not (bit_and a (a - 1) == 0) then next_power 32 a 1 else a)
rounded a low high = elim (Bool-cases (bit_and a (a - 1) == 0)) [
  | inl power ↦ rw power (record {
    is_power = IsPower-fuel a a (omega arith) (omega arith) ((==_iff _ _).0 power);
    enough = omega arith;
    least = inl refl;
    high = high;
  })
  | inr other ↦
      let next = next_power_lem 32 0 a high (omega arith) (omega arith) in
      rw other (record {
        is_power = record { exponent = next.exponent; is_power = next.is_power };
        enough = next.enough;
        least = inr next.least;
        high = below_2_31 next.exponent next.is_power next.least;
      })
]
  where
    below_2_31 :
        (k : ℕ) → next_power 32 a 1 ≡ 2 ^ k → next_power 32 a 1 < 2 * a → next_power 32 a 1 ≤ 2 ^ 30
    below_2_31 k e lt = elim (Bool-cases (ltb 30 k)) [
      | inl large ↦ absurd (omega (arith, pow_mono 31 k (omega (arith, ltb→lt _ _ large)), e, lt))
      | inr small ↦ omega (arith, e, pow_mono k 30 (ground (arith, small)))
    ]

-- Up to 2 ^ 30 bits: the rounds of the doubling loop suffice, and the size is the least power of two from
-- 32 bytes to 128 MiB that holds the bits.
pub round_num_bytes_lem : (bits : ℕ) → bits ≤ 2 ^ 30 → IsSizeFor bits (round_num_bytes bits)
unfolding round_num_bytes
round_num_bytes_lem bits h = elim (Bool-cases (ltb bits (2 ^ 8))) [
  | inl small ↦ rw small (record {
    size = record { exponent = 5; is_power = refl; low = omega arith; high = omega arith };
    enough = omega (arith, ltb→lt _ _ small);
    least = inl refl;
  })
  | inr big ↦
      let r = rounded bits (ground (arith, big)) h in
      rw big (
        IsSizeFor-power bits _ r.is_power r.enough (inr (ground (arith, big, r.least)))
          (ground (arith, big, r.enough)) r.high)
]

-- A builder as `create` and `insert` leave it: whole blocks, a power of two of bytes, and 32-bit counts.
pub record IsStored (b : BsbfBuilder) : Type 0 where
  pub built : IsBuilt b
  pub size : IsSize b.num_bytes
  pub blocks : b.num_blocks ≡ b.num_bytes / 32
  pub ndv : b.ndv < 2 ^ 32

-- A filter stays stored under insertion.
pub insert-IsStored : (b : BsbfBuilder) (hash : ℕ) → IsStored b → IsStored (insert b hash)
unfolding insert
insert-IsStored b hash v = record {
  built = unfold insert in insert-IsBuilt b hash v.built;
  size = v.size;
  blocks = v.blocks;
  ndv = v.ndv;
}

pub size-IsBuilt : (ndv n : ℕ) → IsSize n → IsBuilt (create_sized ndv n)
unfolding create_sized
size-IsBuilt ndv n v = record {
  sized = omega (arith, length-replicate {A = ℕ} (n / 4) 0, whole);
  some_blocks = omega (arith, whole, one-le-pow (v.exponent - 5) 2);
  fits = omega (arith, v.is_power, pow_mono v.exponent 27 v.high);
  words32 = replicate-IsWord _;
}
  where
    whole : n ≡ 2 ^ 5 * 2 ^ (v.exponent - 5)
    whole =
        rw (v.is_power, ← pow-add 5 (v.exponent - 5)) (ap (λ (e : ℕ). 2 ^ e) (omega (arith, v.low)))

module _ {Double : Type 0} (d : Doubles Double) where
  open d use {of_nat, times, less, truncate}

  -- The conversion of a double that is neither below 0 nor above an integer is no more than the integer:
  -- what the formula gives for a rate in (0,1) is a number.
  abbrev pub Truncates : Type 0
  Truncates =
      (ndv : ℕ) (fpp : Double)
      → less (optimal_num_of_bits d ndv fpp) (of_nat 0) ≡ false
      → less (times (of_nat max_bytes) (of_nat 8)) (optimal_num_of_bits d ndv fpp) ≡ false
      → truncate (optimal_num_of_bits d ndv fpp) ≤ max_bytes * 8

  clamp_bits-le :
      Truncates → (ndv : ℕ) (fpp : Double) → clamp_bits d (optimal_num_of_bits d ndv fpp) ≤ 2 ^ 30
  unfolding clamp_bits
  clamp_bits-le h ndv fpp = elim (Bool-cases (less m (of_nat 0))) [
    | inl low ↦ rw low (omega arith)
    | inr not_low ↦ elim (Bool-cases (less (times (of_nat max_bytes) (of_nat 8)) m)) [
      | inl high ↦ rw (not_low, high) (omega arith)
      | inr not_high ↦ rw (not_low, not_high) (omega (arith, h ndv fpp not_low not_high))
    ]
  ]
    where
      m : Double
      m = optimal_num_of_bits d ndv fpp

  -- For every 32-bit number of keys and every rate above 0 and below 1, create succeeds with a filter
  -- of a power of two of bytes, from 32 to 128 MiB, in whole blocks of eight 32-bit words, and of a
  -- 32-bit number of keys, if static_cast does not round up the formula's value where that is neither
  -- below 0 nor above kBsbfMaxBytes * 8.
  pub create-IsStored :
      (ndv : ℕ) (fpp : Double)
      → Truncates
      → ndv < 2 ^ 32
      → less (of_nat 0) fpp ≡ true
      → less fpp (of_nat 1) ≡ true
      → (b : BsbfBuilder) × (create d ndv fpp ≡ ok b) × IsStored b
  unfolding create bsbf_optimal_num_bytes
  create-IsStored ndv fpp h small above below =
      let ndv' = if ndv == 0 then 1 else ndv in
      let size = (round_num_bytes_lem _ (clamp_bits-le h ndv' fpp)).size in
      (
        create_sized ndv' (round_num_bytes (clamp_bits d (optimal_num_of_bits d ndv' fpp))),
        rw (above, below) refl,
        record {
          built = size-IsBuilt ndv' _ size;
          size = unfold create_sized in size;
          blocks = unfold create_sized in refl;
          ndv = unfold create_sized in ground (arith, small);
        },
      )
