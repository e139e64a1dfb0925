-- ===== src/Common/Bits.antt =====
-- `|` of disjoint fields, `&` with a mask and bounds on `^`, as arithmetic at every width.
pub mod Step
pub mod Masks
use Step.{bit_or_step, bit_and_step, bit_xor_step}
use mathlib.Core.Path.{◌≡◌, refl, ap}
use native.Mathlib.Nat.{pow-suc, pow-succ', one-le-pow, div-div-eq-div-mul}
use native.Mathlib.Omega.{arith}
use mathlib.Core.Bool.{Bool, true, false, ◌&&◌}
use snii.Common.Tests.{◌==◌, ==_iff}
use Prim.Native.Nat.{
  ℕ, zero, suc, ◌+◌, ◌-◌, ◌*◌, ◌/◌, ◌%◌, ◌^◌, ◌≤◌, ◌<◌, bit_and, bit_or, bit_xor, bit_or-bitwise,
}

bit_or-zero_fuel : (n a : ℕ) → a ≤ n → bit_or a 0 ≡ a
bit_or-zero_fuel n zero h = refl
bit_or-zero_fuel zero (suc a) h = absurd (omega arith)
bit_or-zero_fuel (suc n) (suc a) h =
    omega (arith, bit_or_step (suc a) 0, bit_or-zero_fuel n (suc a / 2) (omega arith))

bit_and-zero_fuel : (rounds x : ℕ) → x ≤ rounds → bit_and x 0 ≡ 0
bit_and-zero_fuel rounds zero h = refl
bit_and-zero_fuel zero (suc x) h = absurd (omega arith)
bit_and-zero_fuel (suc rounds) (suc x) h =
    omega (arith, bit_and_step (suc x) 0, bit_and-zero_fuel rounds (suc x / 2) (omega arith))

pub bit_and-zero : (x : ℕ) → bit_and x 0 ≡ 0
bit_and-zero x = bit_and-zero_fuel x x (omega arith)

times_power_suc : (hi k : ℕ) → hi * 2 ^ suc k ≡ 2 * (hi * 2 ^ k)
times_power_suc hi k =
    let doubled = ap (λ (power : ℕ). hi * power) (pow-suc 2 k) in omega (arith, doubled)

pub zero-bit_or : (x : ℕ) → bit_or 0 x ≡ x
zero-bit_or x = bit_or-bitwise 0 x

-- `lo | (hi << k)` is a sum when `lo` fits `k` bits.
pub bit_or_high : (k hi lo : ℕ) → lo < 2 ^ k → bit_or lo (hi * 2 ^ k) ≡ lo + hi * 2 ^ k
bit_or_high zero hi zero fits = omega (arith, zero-bit_or (hi * 1))
bit_or_high zero hi (suc lo) fits = absurd (omega arith)
bit_or_high (suc k) hi lo fits = ground (
  arith,
  bit_or_step lo (hi * 2 ^ suc k),
  times_power_suc hi k,
  bit_or_high k hi (lo / 2) (omega arith),
)

pub bit_or_low : (k hi lo : ℕ) → lo < 2 ^ k → bit_or (hi * 2 ^ k) lo ≡ hi * 2 ^ k + lo
bit_or_low zero hi lo fits = ground (arith, bit_or-zero_fuel hi hi)
bit_or_low (suc k) hi lo fits = ground (
  arith,
  bit_or_step (hi * 2 ^ suc k) lo,
  times_power_suc hi k,
  bit_or_low k hi (lo / 2) (omega arith),
)

low_field : (k hi lo : ℕ) → lo < 2 ^ k → bit_and (hi * 2 ^ k + lo) (2 ^ k - 1) ≡ lo
low_field zero hi lo fits =
    omega (arith, bit_and-zero_fuel (hi * 1 + lo) (hi * 1 + lo) (omega arith))
low_field (suc k) hi lo fits = ground (
  arith,
  bit_and_step (hi * 2 ^ suc k + lo) (2 ^ suc k - 1),
  times_power_suc hi k,
  pow-suc 2 k,
  low_field k hi (lo / 2) (omega arith),
)

-- A mask of `k` low bits is the remainder by `2 ^ k`.
pub bit_and_mask : (k a : ℕ) → bit_and a (2 ^ k - 1) ≡ a % 2 ^ k
bit_and_mask k a = ground (arith, one-le-pow k 2, low_field k (a / 2 ^ k) (a % 2 ^ k))

bit_and_double : (a p : ℕ) → bit_and a (2 * p) ≡ bit_and (a / 2) p * 2
bit_and_double a p = rw (bit_and_step a (2 * p), half) (omega arith)
  where
    half : 2 * p / 2 ≡ p
    half = omega arith

-- The mask of one bit.
pub bit_and_bit : (k a : ℕ) → bit_and a (2 ^ k) ≡ a / 2 ^ k % 2 * 2 ^ k
bit_and_bit zero a = omega (arith, bit_and_step a 1, bit_and-zero_fuel (a / 2) (a / 2))
bit_and_bit (suc k) a =
    rw (pow-succ' 2 k, bit_and_double a (2 ^ k), bit_and_bit k (a / 2))
      (rw (div-div-eq-div-mul a 2 (2 ^ k)) (omega arith))

pub bit_xor-lt : (k a b : ℕ) → a < 2 ^ k → b < 2 ^ k → bit_xor a b < 2 ^ k
bit_xor-lt zero zero zero ha hb = omega arith
bit_xor-lt zero zero (suc b) ha hb = absurd (omega arith)
bit_xor-lt zero (suc a) b ha hb = absurd (omega arith)
bit_xor-lt (suc k) a b ha hb =
    ground (arith, bit_xor_step a b, pow-suc 2 k, bit_xor-lt k (a / 2) (b / 2))

bit_xor-zero_fuel : (n a : ℕ) → a ≤ n → bit_xor a 0 ≡ a
bit_xor-zero_fuel n zero h = refl
bit_xor-zero_fuel zero (suc a) h = absurd (omega arith)
bit_xor-zero_fuel (suc n) (suc a) h =
    omega (arith, bit_xor_step (suc a) 0, bit_xor-zero_fuel n (suc a / 2) (omega arith))

pub bit_xor-zero : (a : ℕ) → bit_xor a 0 ≡ a
bit_xor-zero a = bit_xor-zero_fuel a a (omega arith)

-- `^` with all ones is the complement.
pub bit_xor-ones : (k a : ℕ) → a < 2 ^ k → bit_xor a (2 ^ k - 1) ≡ 2 ^ k - 1 - a
bit_xor-ones zero a h = ground (arith, bit_xor-zero a)
bit_xor-ones (suc k) a h =
    rw (bit_xor_step a (2 ^ suc k - 1), half)
      (ground (arith, pow-suc 2 k, one-le-pow k 2, bit_xor-ones k (a / 2)))
  where
    half : (2 ^ suc k - 1) / 2 ≡ 2 ^ k - 1
    half = omega (arith, pow-suc 2 k)

pub bit_or-lt : (k a b : ℕ) → a < 2 ^ k → b < 2 ^ k → bit_or a b < 2 ^ k
bit_or-lt zero zero zero ha hb = omega arith
bit_or-lt zero zero (suc b) ha hb = absurd (omega arith)
bit_or-lt zero (suc a) b ha hb = absurd (omega arith)
bit_or-lt (suc k) a b ha hb =
    ground (arith, bit_or_step a b, pow-suc 2 k, bit_or-lt k (a / 2) (b / 2))

-- A test that holds of every number below a bound, by evaluation.
holds_below : ℕ → (ℕ → Bool) → Bool
holds_below zero p = true
holds_below (suc n) p = p n && holds_below n p

holds_below_sound : (n : ℕ) (p : ℕ → Bool) (x : ℕ) → holds_below n p ≡ true → x < n → p x ≡ true
unfolding holds_below
holds_below_sound zero p x h lt = absurd (omega arith)
holds_below_sound (suc n) p x h lt = ground (arith, holds_below_sound n p x)

top_bit_table : holds_below 256 (λ x. bit_or x 0x80 == x % 128 + 128) ≡ true
unfolding holds_below
top_bit_table = refl

-- Setting the top bit of a byte.
pub bit_or_top : (x : ℕ) → x < 256 → bit_or x 0x80 ≡ x % 128 + 128
bit_or_top x h = (==_iff _ _).0 (holds_below_sound 256 _ x top_bit_table h)
