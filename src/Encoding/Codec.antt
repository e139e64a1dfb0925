-- ===== src/Encoding/Codec.antt =====
-- What it means that a writer appends given bytes, and that a reader takes them off the input and
-- returns a value; one rule for each way to build a writer or a reader.
pub mod Primitives
pub mod Many
pub mod End
pub mod Fails
use snii.Common.{
  ◌-◌, drop-append, take-append, ℕ, ◌+◌, ◌≤◌, ◌≡◌, refl, sym, ap, arith, List, [], ◌∷◌, ◌++◌,
  length, length-append, append_assoc, ==_self, true, Bool, false, if◌then◌else◌, append-nil,
}
use snii.Encoding.Source.{
  remaining, get_remaining, subslice, get_position, get_slice_from, run_get, eof, ByteSource,
  source, Get, ◌>>=◌, ◌>>◌, after, pure, reject_if,
}
use snii.Common.Status.{Result, ok}
use snii.Encoding.Sink.{ByteSink, Put, ◌⨾◌, put_nothing}

pub record Writes (p : Put) (bs : List ℕ) : Type 0 where
  pub run : (sink : ByteSink) → p sink ≡ sink ++ bs

pub Writes-⨾ : {p q : Put} {fs bs : List ℕ} → Writes p fs → Writes q bs → Writes (p ⨾ q) (fs ++ bs)
unfolding ◌⨾◌
Writes-⨾ {p} {q} {fs} {bs} wp wq = record {
  run = λ sink. rw (wp.run sink, wq.run (sink ++ fs)) (append_assoc sink fs bs);
}

pub Writes-nothing : Writes put_nothing []
unfolding put_nothing
Writes-nothing = record { run = λ sink. sym (append-nil sink) }

-- A cursor with `front` behind it and `rest` ahead.
abbrev pub at : List ℕ → List ℕ → ByteSource
at front rest = record { s = front ++ rest; pos = length front }

pub record Reads {A : Type 0} (g : Get A) (bs : List ℕ) (a : A) : Type 0 where
  pub run : (front rest : List ℕ) → g (at front (bs ++ rest)) ≡ ok (a, at (front ++ bs) rest)

-- The cursor after two runs of bytes.
pub at-append :
    (front fs rest : List ℕ)
    → at (front ++ fs) rest ≡ record { s = front ++ (fs ++ rest); pos = length (front ++ fs) }
at-append front fs rest = rw (append_assoc front fs rest)

pub Reads->>= :
    {A B : Type 0} {g : Get A} (f : A → Get B) {fs bs : List ℕ} (a : A) {b : B}
    → Reads g fs a
    → Reads (f a) bs b
    → Reads (g >>= f) (fs ++ bs) b
unfolding ◌>>=◌
Reads->>= {g} f {fs} {bs} a ra rb = record {
  run = λ front rest.
      rw (append_assoc fs bs rest, ra.run front (bs ++ rest))
        (rw (rb.run (front ++ fs) rest, append_assoc front fs bs));
}

-- The rest of the reader takes nothing.
pub Reads-last :
    {A B : Type 0} {g : Get A} (f : A → Get B) {fs : List ℕ} (a : A) {b : B}
    → Reads g fs a
    → Reads (f a) [] b
    → Reads (g >>= f) fs b
Reads-last {g} f {fs} a {b} ra rb =
    let r : Reads (g >>= f) (fs ++ []) b = Reads->>= f a ra rb in rw append-nil at r

pub Reads->> :
    {B : Type 0} {g : Get (Unit {0})} {k : Get B} {fs bs : List ℕ} {b : B}
    → Reads g fs tt
    → Reads k bs b
    → Reads (g >> k) (fs ++ bs) b
unfolding ◌>>◌
Reads->> {k} ra rb = Reads->>= (λ _. k) tt ra rb

pub Reads-pure : {A : Type 0} (a : A) → Reads (pure a) [] a
unfolding pure
Reads-pure a = record { run = λ front rest. rw (append-nil front) }

pub Reads-pure_eq : {A : Type 0} {a b : A} → a ≡ b → Reads (pure a) [] b
Reads-pure_eq {a} e = rw (← e) (Reads-pure a)

pub Reads-cast :
    {A : Type 0} {g : Get A} {bs cs : List ℕ} {a : A} → bs ≡ cs → Reads g bs a → Reads g cs a
Reads-cast e r = rw (← e) r

-- A test of the code that does not fire.
pub Reads-reject_if :
    {b : Bool} (e : Result (Unit {0} × ByteSource)) → b ≡ false → Reads (reject_if b e) [] tt
unfolding reject_if
Reads-reject_if e h = record { run = λ front rest. rw (h, append-nil front) }

-- The same in front of the rest of a reader.
pub Reads-reject :
    {B : Type 0} {b : Bool} (e : Result (Unit {0} × ByteSource)) {k : Get B} {bs : List ℕ} {x : B}
    → b ≡ false
    → Reads k bs x
    → Reads (reject_if b e >> k) bs x
Reads-reject e h r = Reads->> (Reads-reject_if e h) r

-- The cursor at the end of a slice.
abbrev pub at_end : List ℕ → ByteSource
at_end bs = record { s = bs; pos = length bs }

-- A reader that takes the whole slice.
pub Reads-whole :
    {A : Type 0} {g : Get A} {bs : List ℕ} {a : A}
    → Reads g bs a
    → g (source bs) ≡ ok (a, at_end bs)
Reads-whole {g} {bs} {a} r =
    let e : g (at [] (bs ++ [])) ≡ ok (a, at bs []) = r.run [] [] in rw append-nil at e

pub eof-at_end : (bs : List ℕ) → eof (at_end bs) ≡ true
unfolding eof
eof-at_end bs = ==_self (length bs)

-- The same as `Reads`, where the reader starts behind a given `front`.
pub record ReadsAt {A : Type 0} (front : List ℕ) (g : Get A) (bs : List ℕ) (a : A) : Type 0 where
  pub run : (rest : List ℕ) → g (at front (bs ++ rest)) ≡ ok (a, at (front ++ bs) rest)

module _ {A : Type 0} {g : Get A} {bs : List ℕ} {a : A} where
  pub Reads→ReadsAt : (front : List ℕ) → Reads g bs a → ReadsAt front g bs a
  Reads→ReadsAt front r = record { run = r.run front }

  pub ReadsAt→Reads : ((front : List ℕ) → ReadsAt front g bs a) → Reads g bs a
  ReadsAt→Reads h = record { run = λ front. (h front).run }

pub ReadsAt->>= :
    {A B : Type 0} {front : List ℕ} {g : Get A} (f : A → Get B) {fs bs : List ℕ} (a : A) {b : B}
    → ReadsAt front g fs a
    → ReadsAt (front ++ fs) (f a) bs b
    → ReadsAt front (g >>= f) (fs ++ bs) b
unfolding ◌>>=◌
ReadsAt->>= {front} {g} f {fs} {bs} a ra rb = record {
  run = λ rest.
      rw (append_assoc fs bs rest, ra.run (bs ++ rest))
        (rw (rb.run rest, append_assoc front fs bs));
}

pub ReadsAt-last :
    {A B : Type 0} {front : List ℕ} {g : Get A} (f : A → Get B) {fs : List ℕ} (a : A) {b : B}
    → ReadsAt front g fs a
    → ReadsAt (front ++ fs) (f a) [] b
    → ReadsAt front (g >>= f) fs b
ReadsAt-last {front} {g} f {fs} a {b} ra rb =
    let r : ReadsAt front (g >>= f) (fs ++ []) b = ReadsAt->>= f a ra rb in rw append-nil at r

pub ReadsAt-reject :
    {B : Type 0} {b : Bool} {front : List ℕ} (e : Result (Unit {0} × ByteSource)) {k : Get B}
    {bs : List ℕ} {x : B}
    → b ≡ false
    → ReadsAt front k bs x
    → ReadsAt front (reject_if b e >> k) bs x
unfolding ◌>>◌ ◌>>=◌ reject_if
ReadsAt-reject e h r = record { run = λ rest. rw h (r.run rest) }

pub ReadsAt-get_remaining :
    {B : Type 0} {front : List ℕ} (f : ℕ → Get B) {bs : List ℕ} {b : B}
    → ((m : ℕ) → length bs ≤ m → ReadsAt front (f m) bs b)
    → ReadsAt front (get_remaining >>= f) bs b
unfolding get_remaining ◌>>=◌ remaining
ReadsAt-get_remaining {front} f {bs} r = record {
  run = λ rest.
      (r (length (front ++ (bs ++ rest)) - length front)
          (omega (arith, length-append front (bs ++ rest), length-append bs rest))).run
        rest;
}

-- The position, kept for later.
pub ReadsAt-get_position :
    {B : Type 0} {front bs : List ℕ} (f : ℕ → Get B) {b : B}
    → ReadsAt front (f (length front)) bs b
    → ReadsAt front (get_position >>= f) bs b
unfolding get_position ◌>>=◌
ReadsAt-get_position f r = record { run = r.run }

-- The slice of what was read between two positions.
pub ReadsAt-get_slice_from :
    {B : Type 0} (front body tail : List ℕ) (len : ℕ) {now bs : List ℕ} (f : List ℕ → Get B) {b : B}
    → now ≡ front ++ (body ++ tail)
    → len ≡ length body
    → ReadsAt now (f body) bs b
    → ReadsAt now (get_slice_from (length front) len >>= f) bs b
unfolding get_slice_from ◌>>=◌
ReadsAt-get_slice_from front body tail len {now} {bs} f e h r = record {
  run = λ rest. rw (cut rest) (r.run rest);
}
  where
    cut : (rest : List ℕ) → subslice (now ++ (bs ++ rest)) (length front) len ≡ body
    cut rest =
        rw
          (
            e,
            h,
            append_assoc front (body ++ tail) (bs ++ rest),
            drop-append front ((body ++ tail) ++ (bs ++ rest)),
            append_assoc body tail (bs ++ rest),
          )
          (take-append body (tail ++ (bs ++ rest)))

pub run_get-Reads :
    {A : Type 0} {g : Get A} {bs : List ℕ} {a : A} → Reads g bs a → run_get g bs ≡ ok a
unfolding run_get
run_get-Reads r = rw (Reads-whole r)
