-- ===== src/Common/Status.antt =====
-- core/include/snii/common/status.h, core/src/common/status.cpp
-- A function that returns a `Status` and fills its out parameters returns a `Result` of these.
use Prim.Native.String.{String}
use mathlib.Core.Bool.{Bool, true, false}

pub data StatusCode : Type 0 where
  ok_code corruption_code not_found_code invalid_argument_code : StatusCode
  io_error_code unsupported_code internal_code : StatusCode

pub record Status : Type 0 where
  pub code : StatusCode
  pub message : String

pub data Result {ℓ} (A : Type ℓ) : Type ℓ where
  ok : A → Result A
  fail : Status → Result A

abbrev pub corrupt : String → Status
corrupt m = record { code = corruption_code; message = m }

module _ {ℓ} {A : Type ℓ} where
  abbrev pub corruption : String → Result A
  corruption m = fail (corrupt m)

  abbrev pub not_found : String → Result A
  not_found m = fail (record { code = not_found_code; message = m })

  abbrev pub invalid_argument : String → Result A
  invalid_argument m = fail (record { code = invalid_argument_code; message = m })

  abbrev pub unsupported : String → Result A
  unsupported m = fail (record { code = unsupported_code; message = m })

  abbrev pub internal : String → Result A
  internal m = fail (record { code = internal_code; message = m })

-- SNII_RETURN_IF_ERROR: the first failure ends the function.
infixl 5 ◌>>=◌ ◌>>◌
abbrev pub ◌>>=◌ {ℓ κ} : {A : Type ℓ} {B : Type κ} → Result A → (A → Result B) → Result B
ok a >>= f = f a
fail e >>= f = fail e

abbrev pub ◌>>◌ {ℓ} : {B : Type ℓ} → Result (Unit {0}) → Result B → Result B
m >> k = m >>= λ _. k

-- A test of the code that returns a failure when it holds.
abbrev pub fail_if : Bool → Result (Unit {0}) → Result (Unit {0})
fail_if true e = e
fail_if false e = ok tt
