-- ===== src/Common/Bits/Step.antt =====
-- The bit operations of the source, one binary digit at a time.
-- Prim.Native.Nat explains them by `bitwise`, which recurses on rounds; more rounds change nothing.
use native.Mathlib.Omega.{arith}
use mathlib.Core.Path.{◌≡◌, refl, ◌∙◌}
use Prim.Native.Nat.{
  digits, bitwise, bit_xor-bitwise, bit_or-bitwise, bit_and-bitwise, differ, max, min, ℕ, suc, zero,
  bit_xor, bit_or, bit_and, ◌≤◌, ◌<◌, ◌+◌, ◌*◌, ◌%◌, ◌/◌,
}

module _ (above : ℕ → ℕ) (digit : ℕ → ℕ → ℕ) where
  rounds_agree :
      (x y rounds others : ℕ)
      → x ≤ others
      → x ≤ rounds
      → digits above digit rounds x y ≡ digits above digit others x y
  rounds_agree zero y (suc r) zero ho hr = refl
  rounds_agree zero y zero zero ho hr = refl
  rounds_agree zero y zero (suc o) ho hr = refl
  rounds_agree zero y (suc r) (suc o) ho hr = refl
  rounds_agree (suc x) y (suc r) zero ho hr = absurd (omega arith)
  rounds_agree (suc x) y zero o ho hr = absurd (omega arith)
  rounds_agree (suc x) y (suc r) (suc o) ho hr =
      let halves = rounds_agree (suc x / 2) (y / 2) r o (omega arith) (omega arith) in
      rw halves refl

  lowest_digit :
      (x y : ℕ)
      → bitwise above digit (suc x) y
        ≡ bitwise above digit (suc x / 2) (y / 2) * 2 + digit (suc x % 2) (y % 2)
  lowest_digit x y =
      let enough = rounds_agree (suc x / 2) (y / 2) x (suc x / 2) (omega arith) (omega arith) in
      omega (arith, enough)

pub bit_and_step : (x y : ℕ) → bit_and x y ≡ bit_and (x / 2) (y / 2) * 2 + min (x % 2) (y % 2)
bit_and_step (suc x) y = simp bit_and-bitwise (lowest_digit (λ rest. 0) min x y)
bit_and_step zero y = simp bit_and-bitwise (omega arith)

differ-sum : (x y : ℕ) → y < 2 → x < 2 → differ x y ≡ (x + y) % 2
differ-sum (suc (suc x)) y hy hx = absurd (omega arith)
differ-sum (suc x) (suc (suc y)) hy hx = absurd (omega arith)
differ-sum (suc zero) (suc zero) hy hx = refl
differ-sum (suc zero) zero hy hx = refl
differ-sum zero y hy hx = omega arith

pub bit_xor_step : (x y : ℕ) → bit_xor x y ≡ bit_xor (x / 2) (y / 2) * 2 + (x % 2 + y % 2) % 2
bit_xor_step zero y = simp bit_xor-bitwise (omega arith)
bit_xor_step (suc x) y = simp bit_xor-bitwise (lowest_digit (λ rest. rest) differ x y ∙ as_sum)
  where
    as_sum :
        bitwise (λ rest. rest) differ (suc x / 2) (y / 2) * 2 + differ (suc x % 2) (y % 2)
        ≡ bitwise (λ rest. rest) differ (suc x / 2) (y / 2) * 2 + (suc x % 2 + y % 2) % 2
    as_sum = rw (differ-sum (suc x % 2) (y % 2) (omega arith) (omega arith)) refl

pub bit_or_step : (x y : ℕ) → bit_or x y ≡ bit_or (x / 2) (y / 2) * 2 + max (x % 2) (y % 2)
bit_or_step (suc x) y = simp bit_or-bitwise (lowest_digit (λ rest. rest) max x y)
bit_or_step zero y = simp bit_or-bitwise (omega arith)
