-- ===== src/Encoding/Codec/Many.antt =====
-- Repeated reads and writes, reads that must end the slice, and checks on what remains.
use snii.Common.{
  ℕ, ◌*◌, ◌-◌, ◌≤◌, ◌≡◌, arith, List, [], ◌∷◌, ◌++◌, length, length-append, append-nil, All, false,
}
use snii.Common.Status.{Result, Status, ok, fail}
use snii.Encoding.Sink.{Put, put_many}
use snii.Encoding.Source.{Get, ◌>>=◌, lift, eof, full_get, get_many, get_remaining, remaining}
use snii.Encoding.Codec.{
  Writes, Writes-⨾, Writes-nothing, Reads, Reads->>=, Reads-last, Reads-pure, Reads-whole,
  eof-at_end, at,
}

-- The encodings of all the values, one after the other.
abbrev pub concat_map {ℓ} : {A : Type ℓ} → (A → List ℕ) → List A → List ℕ
concat_map enc [] = []
concat_map enc (a ∷ l) = enc a ++ concat_map enc l

module _ {A : Type 0} (enc : A → List ℕ) where
  pub Writes-put_many :
      (put : A → Put)
      → ((a : A) → Writes (put a) (enc a))
      → (l : List A) → Writes (put_many put l) (concat_map enc l)
  unfolding put_many
  Writes-put_many put w [] = Writes-nothing
  Writes-put_many put w (a ∷ l) = Writes-⨾ (w a) (Writes-put_many put w l)

  pub Reads-get_many :
      (g : Get A) (Valid : A → Type 0)
      → ((a : A) → Valid a → Reads g (enc a) a)
      → (l : List A) → All Valid l
      → Reads (get_many (length l) g) (concat_map enc l) l
  unfolding get_many
  Reads-get_many g Valid r [] v = Reads-pure []
  Reads-get_many g Valid r (a ∷ l) (va, vl) =
      Reads->>= _ a (r a va) (Reads-last _ l (Reads-get_many g Valid r l vl) (Reads-pure (a ∷ l)))

  -- If each encoding has `k` bytes at least, so have all of them together.
  pub length-concat_map_ge :
      (k : ℕ)
      → ((a : A) → k ≤ length (enc a))
      → (l : List A) → length l * k ≤ length (concat_map enc l)
  length-concat_map_ge k h [] = omega arith
  length-concat_map_ge k h (a ∷ l) =
      grind (arith, length-append (enc a) (concat_map enc l), h a, length-concat_map_ge k h l)

  pub length-concat_map_le :
      (k : ℕ) (Valid : A → Type 0)
      → ((a : A) → Valid a → length (enc a) ≤ k)
      → (l : List A) → All Valid l
      → length (concat_map enc l) ≤ length l * k
  length-concat_map_le k Valid h [] v = omega arith
  length-concat_map_le k Valid h (a ∷ l) (va, vl) =
      grind (
        arith,
        length-append (enc a) (concat_map enc l),
        h a va,
        length-concat_map_le k Valid h l vl,
      )

-- A reader that asks how much is left: at least the bytes that it goes on to read.
pub Reads-get_remaining :
    {B : Type 0} (f : ℕ → Get B) {bs : List ℕ} {b : B}
    → ((m : ℕ) → length bs ≤ m → Reads (f m) bs b)
    → Reads (get_remaining >>= f) bs b
unfolding get_remaining ◌>>=◌ remaining
Reads-get_remaining f {bs} r = record {
  run = λ front rest.
      (r (length (front ++ (bs ++ rest)) - length front)
          (omega (arith, length-append front (bs ++ rest), length-append bs rest))).run
        front rest;
}

pub Reads-lift : {A : Type 0} {r : Result A} {a : A} → r ≡ ok a → Reads (lift r) [] a
unfolding lift
Reads-lift e = record { run = λ front rest. rw (e, append-nil front) }

-- A reader that takes the whole slice passes the test at the end.
pub full_get-Reads :
    {A : Type 0} {g : Get A} (e : Status) {bs : List ℕ} {a : A}
    → Reads g bs a
    → full_get g e bs ≡ ok a
unfolding full_get
full_get-Reads e {bs} r = rw (Reads-whole r, eof-at_end bs)

-- Bytes left over behind it make it fail.
pub full_get-trailing :
    {A : Type 0} {g : Get A} (e : Status) {bs : List ℕ} {a : A} (x : ℕ) (xs : List ℕ)
    → Reads g bs a
    → full_get g e (bs ++ (x ∷ xs)) ≡ fail e
unfolding full_get
full_get-trailing e {bs} x xs r = rw (r.run [] (x ∷ xs), not_eof)
  where
    not_eof : eof (at bs (x ∷ xs)) ≡ false
    not_eof = unfold eof in ground (arith, length-append bs (x ∷ xs))
