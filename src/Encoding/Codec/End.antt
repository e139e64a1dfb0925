-- ===== src/Encoding/Codec/End.antt =====
-- Readers that take all that is left of the slice, and may ask how much that is.
use snii.Common.{
  ◌≤◌, ==_self, true, ℕ, ◌-◌, ◌≡◌, arith, List, [], ◌++◌, length, length-append, append_assoc,
  append-nil, Bool, false,
}
use snii.Encoding.Source.{
  eof, get_eof, ByteSource, Get, ◌>>=◌, ◌>>◌, reject_if, get_remaining, remaining, run_get,
}
use snii.Common.Status.{Result, ok}
use snii.Encoding.Codec.{Reads, Reads-reject_if, at, at_end}

pub record ReadsEnd {A : Type 0} (g : Get A) (bs : List ℕ) (a : A) : Type 0 where
  pub run : (front : List ℕ) → g (at front bs) ≡ ok (a, at_end (front ++ bs))

pub Reads→ReadsEnd : {A : Type 0} {g : Get A} {bs : List ℕ} {a : A} → Reads g bs a → ReadsEnd g bs a
Reads→ReadsEnd {g} {bs} {a} r = record {
  run = λ front.
      let e : g (at front (bs ++ [])) ≡ ok (a, at (front ++ bs) []) = r.run front [] in
      rw (append-nil bs, append-nil (front ++ bs)) at e;
}

pub ReadsEnd->>= :
    {A B : Type 0} {g : Get A} (f : A → Get B) {fs bs : List ℕ} (a : A) {b : B}
    → Reads g fs a
    → ReadsEnd (f a) bs b
    → ReadsEnd (g >>= f) (fs ++ bs) b
unfolding ◌>>=◌
ReadsEnd->>= f {fs} {bs} a r e = record {
  run = λ front. rw (r.run front bs, e.run (front ++ fs), append_assoc front fs bs);
}

pub ReadsEnd-last :
    {A B : Type 0} {g : Get A} (f : A → Get B) {fs : List ℕ} (a : A) {b : B}
    → Reads g fs a
    → ReadsEnd (f a) [] b
    → ReadsEnd (g >>= f) fs b
ReadsEnd-last {g} f {fs} a {b} r e =
    let whole : ReadsEnd (g >>= f) (fs ++ []) b = ReadsEnd->>= f a r e in rw append-nil at whole

pub ReadsEnd-reject :
    {B : Type 0} {b : Bool} (e : Result (Unit {0} × ByteSource)) {k : Get B} {bs : List ℕ} {x : B}
    → b ≡ false
    → ReadsEnd k bs x
    → ReadsEnd (reject_if b e >> k) bs x
unfolding ◌>>◌
ReadsEnd-reject e {k} h r = ReadsEnd->>= (λ _. k) tt (Reads-reject_if e h) r

pub ReadsEnd-get_remaining :
    {B : Type 0} (f : ℕ → Get B) {bs : List ℕ} {b : B}
    → ReadsEnd (f (length bs)) bs b
    → ReadsEnd (get_remaining >>= f) bs b
unfolding get_remaining ◌>>=◌ remaining
ReadsEnd-get_remaining f {bs} r = record { run = λ front. rw (left front) (r.run front) }
  where
    left : (front : List ℕ) → length (front ++ bs) - length front ≡ length bs
    left front = omega (arith, length-append front bs)

pub run_get-ReadsEnd :
    {A : Type 0} {g : Get A} {bs : List ℕ} {a : A} → ReadsEnd g bs a → run_get g bs ≡ ok a
unfolding run_get
run_get-ReadsEnd r = rw (r.run [])

-- A test for the end of the slice, where it is reached.
pub ReadsEnd-get_eof :
    {B : Type 0} (f : Bool → Get B) {b : B} → ReadsEnd (f true) [] b → ReadsEnd (get_eof >>= f) [] b
unfolding get_eof ◌>>=◌
ReadsEnd-get_eof f r = record { run = λ front. rw (here front) (r.run front) }
  where
    here : (front : List ℕ) → eof (at front []) ≡ true
    here front = unfold eof in rw append-nil (==_self (length front))

-- A test for the end of the slice, before it is reached.
pub ReadsEnd-get_eof_not :
    {B : Type 0} (f : Bool → Get B) {bs : List ℕ} {b : B}
    → 1 ≤ length bs
    → ReadsEnd (f false) bs b
    → ReadsEnd (get_eof >>= f) bs b
unfolding get_eof ◌>>=◌
ReadsEnd-get_eof_not f {bs} h r = record { run = λ front. rw (here front) (r.run front) }
  where
    here : (front : List ℕ) → eof (at front bs) ≡ false
    here front = unfold eof in ground (arith, length-append front bs)

-- What has taken all that is left may be followed by what takes nothing.
pub ReadsEnd-then :
    {A B : Type 0} {g : Get A} (f : A → Get B) {bs : List ℕ} {a : A} {b : B}
    → ReadsEnd g bs a
    → ReadsEnd (f a) [] b
    → ReadsEnd (g >>= f) bs b
unfolding ◌>>=◌
ReadsEnd-then f {bs} {a} {b} r e = record { run = λ front. rw (r.run front) (ends (front ++ bs)) }
  where
    ends : (front : List ℕ) → f a (at_end front) ≡ ok (b, at_end front)
    ends front =
        let step : f a (at front []) ≡ ok (b, at_end (front ++ [])) = e.run front in
        rw append-nil at step
