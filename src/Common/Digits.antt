-- ===== src/Common/Digits.antt =====
-- Little-endian bytes of a number, and powers.
use Prim.Native.Nat.{ℕ, zero, suc, ◌+◌, ◌*◌, ◌/◌, ◌%◌, ◌^◌, ◌≤◌, ◌<◌}
use mathlib.Core.Path.{◌≡◌, refl}
use mathlib.Core.List.{List, [], ◌∷◌}
use native.Mathlib.Omega.{arith}
use native.Mathlib.Nat.{pow-succ', one-le-pow}
use native.Mathlib.Numerals.{towards_suc}
use snii.Common.Lists.{length, All}

-- The `k` low bytes of `n`, lowest first.
unfoldable pub le_bytes : ℕ → ℕ → List ℕ
le_bytes zero n = []
le_bytes (suc k) n = (n % 256) ∷ le_bytes k (n / 256)

pub length-le_bytes : (k n : ℕ) → length (le_bytes k n) ≡ k
unfolding le_bytes
length-le_bytes zero n = refl
length-le_bytes (suc k) n = omega (arith, length-le_bytes k (n / 256))

abbrev pub IsByte : ℕ → Type 0
IsByte b = b < 256

pub le_bytes-IsByte : (k n : ℕ) → All IsByte (le_bytes k n)
unfolding le_bytes
le_bytes-IsByte zero n = tt
le_bytes-IsByte (suc k) n = (omega arith, le_bytes-IsByte k (n / 256))

pub pow-add_seven : (s : ℕ) → 2 ^ (s + 7) ≡ 128 * 2 ^ s
pow-add_seven s = simp towards_suc (omega arith)

pub pow-add_eight : (s : ℕ) → 2 ^ (s + 8) ≡ 256 * 2 ^ s
pow-add_eight s = simp towards_suc (omega arith)

pub pow_mono : (a b : ℕ) → a ≤ b → 2 ^ a ≤ 2 ^ b
pow_mono zero b h = one-le-pow b 2 (omega arith)
pow_mono (suc a) zero h = absurd (omega arith)
pow_mono (suc a) (suc b) h = omega (arith, pow-succ' 2 a, pow-succ' 2 b, pow_mono a b (omega arith))

pub pow-add : (a b : ℕ) → 2 ^ (a + b) ≡ 2 ^ a * 2 ^ b
pow-add zero b = rw zero_plus (omega arith)
  where
    zero_plus : 0 + b ≡ b
    zero_plus = omega arith
pow-add (suc a) b = rw (suc_plus, pow-succ' 2 (a + b), pow-succ' 2 a, pow-add a b) (omega arith)
  where
    suc_plus : suc a + b ≡ suc (a + b)
    suc_plus = omega arith
