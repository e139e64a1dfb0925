-- ===== src/Format/Bsbf/Powers.antt =====
-- The doubling loop and the power-of-two test of core/src/format/bsbf.cpp.
use native.Mathlib.Nat.{pow-suc}
use snii.Common.{
  ℕ, zero, suc, ◌+◌, ◌-◌, ◌*◌, ◌/◌, ◌%◌, ◌^◌, ◌≤◌, ◌<◌, ◌≡◌, inl, inr, refl, arith, Bool-cases, ltb,
  ltb→lt, bit_and, ◌==◌, ==_iff,
}
use snii.Format.Bsbf.Sizing.{next_power}
use snii.Common.Digits.{pow_mono}
use snii.Common.Bits.{zero-bit_or}
use snii.Common.Bits.Masks.{bit_and-bit_or_self}
use snii.Common.Bits.Step.{bit_and_step}

-- The least power of two that is no less.
pub record IsNext (bits p : ℕ) : Type 0 where
  pub exponent : ℕ
  pub is_power : p ≡ 2 ^ exponent
  pub enough : bits ≤ p
  pub least : p < 2 * bits

pub next_power_lem :
    (rounds j bits : ℕ)
    → bits ≤ 2 ^ 30
    → 30 ≤ j + rounds
    → 2 ^ j < 2 * bits
    → IsNext bits (next_power rounds bits (2 ^ j))
unfolding next_power
next_power_lem zero j bits fits rounds low = record {
  exponent = j;
  is_power = refl;
  enough = omega (arith, pow_mono 30 j (omega arith));
  least = low;
}
next_power_lem (suc rounds) j bits fits enough low = elim (Bool-cases (ltb (2 ^ j) bits)) [
  | inl less ↦
      rw (less, doubled (ltb→lt _ _ less))
        (next_power_lem rounds (suc j) bits fits (omega arith)
          (omega (arith, ltb→lt _ _ less, pow-suc 2 j)))
  | inr more ↦
      rw more (record { exponent = j; is_power = refl; enough = ground (arith, more); least = low })
]
  where
    doubled : 2 ^ j < bits → 2 ^ j * 2 % 2 ^ 32 ≡ 2 ^ suc j
    doubled h = omega (arith, pow-suc 2 j)

pub bit_and_self : (c : ℕ) → bit_and c c ≡ c
bit_and_self c = let same = bit_and-bit_or_self 0 c in rw (zero-bit_or c) at same

pub record IsPower (a : ℕ) : Type 0 where
  pub exponent : ℕ
  pub is_power : a ≡ 2 ^ exponent

-- `(a & (a - 1)) == 0` holds only of powers of two.
pub IsPower-fuel : (n a : ℕ) → a ≤ n → 1 ≤ a → bit_and a (a - 1) ≡ 0 → IsPower a
IsPower-fuel zero a le pos h = absurd (omega arith)
IsPower-fuel (suc n) a le pos h = elim (Bool-cases (a % 2 == 0)) [
  | inl even ↦
      let rest =
        IsPower-fuel n (a / 2) (omega arith) (omega (arith, (==_iff _ _).0 even))
          (below ((==_iff _ _).0 even)) in
      record {
        exponent = suc rest.exponent;
        is_power = omega (arith, rest.is_power, pow-suc 2 rest.exponent, (==_iff _ _).0 even);
      }
  | inr odd ↦ record { exponent = 0; is_power = one (ground (arith, odd)) }
]
  where
    below : a % 2 ≡ 0 → bit_and (a / 2) (a / 2 - 1) ≡ 0
    below even = rw (← half) (omega (arith, bit_and_step a (a - 1), h))
      where
        half : (a - 1) / 2 ≡ a / 2 - 1
        half = omega arith

    one : a % 2 ≡ 1 → a ≡ 2 ^ 0
    one odd = omega (arith, bit_and_step a (a - 1), whole, h)
      where
        whole : bit_and (a / 2) ((a - 1) / 2) ≡ a / 2
        whole = rw half (bit_and_self (a / 2))
          where
            half : (a - 1) / 2 ≡ a / 2
            half = omega arith
