-- ===== src/Common/Bits/Masks.antt =====
-- A word that has all the bits of a mask.
use snii.Common.Bits.Step.{bit_or_step, bit_and_step}
use mathlib.Core.Path.{◌≡◌, refl}
use native.Mathlib.Omega.{arith}
use Prim.Native.Nat.{ℕ, zero, suc, ◌/◌, ◌≤◌, bit_and, bit_or}
use snii.Common.Bits.{bit_and-zero}

bit_or-half : (x y : ℕ) → bit_or x y / 2 ≡ bit_or (x / 2) (y / 2)
bit_or-half x y = omega (arith, bit_or_step x y)

bit_and-half : (w x m : ℕ) → bit_and (bit_or w x / 2) m ≡ bit_and (bit_or (w / 2) (x / 2)) m
bit_and-half w x m = rw (bit_or-half w x) refl

keep_fuel : (n w x m : ℕ) → m ≤ n → bit_and w m ≡ m → bit_and (bit_or w x) m ≡ m
keep_fuel n w x zero le h = bit_and-zero _
keep_fuel zero w x (suc m) le h = absurd (omega arith)
keep_fuel (suc n) w x (suc m) le h =
    let rest =
      keep_fuel n (w / 2) (x / 2) (suc m / 2) (omega arith)
        (omega (arith, bit_and_step w (suc m), h)) in
    omega (
      arith,
      bit_and_step (bit_or w x) (suc m),
      bit_and-half w x (suc m / 2),
      bit_or_step w x,
      bit_and_step w (suc m),
      rest,
      h,
    )

-- `|=` clears no bit.
pub bit_and-bit_or_keep : (w x m : ℕ) → bit_and w m ≡ m → bit_and (bit_or w x) m ≡ m
bit_and-bit_or_keep w x m h = keep_fuel m w x m (omega arith) h

self_fuel : (n w m : ℕ) → m ≤ n → bit_and (bit_or w m) m ≡ m
self_fuel n w zero le = bit_and-zero _
self_fuel zero w (suc m) le = absurd (omega arith)
self_fuel (suc n) w (suc m) le =
    let rest = self_fuel n (w / 2) (suc m / 2) (omega arith) in
    omega (
      arith,
      bit_and_step (bit_or w (suc m)) (suc m),
      bit_and-half w (suc m) (suc m / 2),
      bit_or_step w (suc m),
      rest,
    )

-- `|= m` sets the bits of `m`.
pub bit_and-bit_or_self : (w m : ℕ) → bit_and (bit_or w m) m ≡ m
bit_and-bit_or_self w m = self_fuel m w m (omega arith)
