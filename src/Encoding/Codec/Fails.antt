-- ===== src/Encoding/Codec/Fails.antt =====
-- Readers that fail on given bytes, and the first failure that ends a reader.
use snii.Common.{[]}
use snii.Common.{◌≡◌, refl, List, ◌++◌, length, Bool, true, false, ℕ}
use snii.Common.Status.{Status, Result, fail}
use snii.Encoding.Source.{
  Get, ByteSource, ◌>>=◌, ◌>>◌, reject_if, get_position, get_remaining, remaining, run_get,
}
use snii.Encoding.Codec.{Reads, at}

-- The reader fails with `e` where `front` is behind the cursor and `rest` ahead.
pub record Fails {A : Type 0} (front : List ℕ) (g : Get A) (rest : List ℕ) (e : Status)
    : Type 0 where
  pub run : g (at front rest) ≡ fail e

module _ {A B : Type 0} {front rest : List ℕ} {e : Status} where
  pub Fails->>= :
      {g : Get A} (f : A → Get B) {fs : List ℕ} (a : A)
      → Reads g fs a
      → Fails (front ++ fs) (f a) rest e
      → Fails front (g >>= f) (fs ++ rest) e
  unfolding ◌>>=◌
  Fails->>= f {fs} a ra r = record { run = rw (ra.run front rest) r.run }

  pub Fails-first :
      {g : Get A} (f : A → Get B) → Fails front g rest e → Fails front (g >>= f) rest e
  unfolding ◌>>=◌
  Fails-first f r = record { run = rw (r.run) refl }

module _ {B : Type 0} {front rest : List ℕ} {e : Status} where
  pub Fails-get_position :
      (f : ℕ → Get B)
      → Fails front (f (length front)) rest e
      → Fails front (get_position >>= f) rest e
  unfolding get_position ◌>>=◌
  Fails-get_position f r = record { run = r.run }

  pub Fails-get_remaining :
      (f : ℕ → Get B)
      → ((m : ℕ) → Fails front (f m) rest e)
      → Fails front (get_remaining >>= f) rest e
  unfolding get_remaining ◌>>=◌ remaining
  Fails-get_remaining f r = record { run = (r _).run }

  -- A test of the code that does not fire.
  pub Fails-passes :
      {b : Bool} (x : Result (Unit {0} × ByteSource)) {k : Get B}
      → b ≡ false
      → Fails front k rest e
      → Fails front (reject_if b x >> k) rest e
  unfolding ◌>>◌ ◌>>=◌ reject_if
  Fails-passes x h r = record { run = rw h (r.run) }

  -- The test that ends the reader.
  pub Fails-rejected :
      {b : Bool} (k : Get B) → b ≡ true → Fails front (reject_if b (fail e) >> k) rest e
  unfolding ◌>>◌ ◌>>=◌ reject_if
  Fails-rejected k h = record { run = rw h refl }

pub run_get-Fails :
    {A : Type 0} {g : Get A} {bs : List ℕ} {e : Status} → Fails [] g bs e → run_get g bs ≡ fail e
unfolding run_get
run_get-Fails r = rw (r.run) refl
