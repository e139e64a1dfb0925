-- ===== src/Writer/PostingPool/Chain.antt =====
-- What it means that a chain of slices holds given bytes (core/src/writer/compact_posting_pool.cpp).
use snii.Writer.PostingPool.Memory.{read_ptr-Agree, run-Agree, run, Agree}
use snii.Common.{sym, ◌∙◌, ℕ, ◌+◌, ◌-◌, ◌≤◌, ◌<◌, ◌≡◌, ◌⊎◌, inl, inr, arith, List, [], ◌∷◌, ◌++◌}
use snii.Writer.PostingPool.{read_ptr, SliceWriter, slice_size, Bytes, next_level}

-- The last slice of a chain.
pub record Tail (mem : Bytes) (w : SliceWriter) (last level first : ℕ) (bytes : List ℕ)
    : Type 0 where
  pub last_level : last ≡ level
  pub end : w.slice_end ≡ first + slice_size level
  pub low : first ≤ w.cur
  pub high : w.cur ≤ w.slice_end
  pub payload : bytes ≡ run mem first (w.cur - first)
  pub zero_ptr : read_ptr mem w.slice_end ≡ 0

-- A full slice that points to the next one, which lies above it.
pub record Link (mem : Bytes) (level first next : ℕ) (bytes rest : List ℕ) : Type 0 where
  pub above : first + slice_size level + 4 ≤ next
  pub ptr : read_ptr mem (first + slice_size level) ≡ next
  pub payload : bytes ≡ run mem first (slice_size level) ++ rest

-- The chain from a slice on: the heads of the later slices, and the bytes written in order.
abbrev pub Holds : Bytes → SliceWriter → ℕ → ℕ → ℕ → List ℕ → List ℕ → Type 0
Holds mem w last level first [] bytes = Tail mem w last level first bytes
Holds mem w last level first (next ∷ nexts) bytes =
    (rest : List ℕ) × Link mem level first next bytes rest
    × Holds mem w last (next_level level) next nexts rest

-- The bytes of a slice and its pointer.
abbrev pub InSlice : ℕ → ℕ → ℕ → Type 0
InSlice level first o = (first ≤ o) × (o < first + slice_size level + 4)

abbrev pub Owned : ℕ → ℕ → List ℕ → ℕ → Type 0
Owned level first [] o = InSlice level first o
Owned level first (next ∷ nexts) o = InSlice level first o ⊎ Owned (next_level level) next nexts o

module _ (w : SliceWriter) (last : ℕ) where
  pub Holds-low :
      (mem : Bytes) (level first : ℕ) (nexts bytes : List ℕ)
      → Holds mem w last level first nexts bytes
      → first ≤ w.cur
  Holds-low mem level first [] bytes h = h.low
  Holds-low mem level first (next ∷ nexts) bytes (rest, l, h) =
      omega (arith, l.above, Holds-low mem (next_level level) next nexts rest h)

  pub Holds-high :
      (mem : Bytes) (level first : ℕ) (nexts bytes : List ℕ)
      → Holds mem w last level first nexts bytes
      → w.cur ≤ w.slice_end
  Holds-high mem level first [] bytes h = h.high
  Holds-high mem level first (next ∷ nexts) bytes (rest, l, h) =
      Holds-high mem (next_level level) next nexts rest h

  pub Holds-zero_ptr :
      (mem : Bytes) (level first : ℕ) (nexts bytes : List ℕ)
      → Holds mem w last level first nexts bytes
      → read_ptr mem w.slice_end ≡ 0
  Holds-zero_ptr mem level first [] bytes h = h.zero_ptr
  Holds-zero_ptr mem level first (next ∷ nexts) bytes (rest, l, h) =
      Holds-zero_ptr mem (next_level level) next nexts rest h

  -- The slices of a chain end with the tail slice.
  pub Owned-lt :
      (mem : Bytes) (level first : ℕ) (nexts bytes : List ℕ)
      → Holds mem w last level first nexts bytes
      → (o : ℕ) → Owned level first nexts o
      → o < w.slice_end + 4
  Owned-lt mem level first [] bytes h o own = omega (arith, h.end, own)
  Owned-lt mem level first (next ∷ nexts) bytes (rest, l, h) o (inl own) = omega (
    arith,
    own,
    l.above,
    Holds-low mem (next_level level) next nexts rest h,
    Holds-high mem (next_level level) next nexts rest h,
  )
  Owned-lt mem level first (next ∷ nexts) bytes (rest, l, h) o (inr own) =
      Owned-lt mem (next_level level) next nexts rest h o own

  -- The write cursor and what follows it in the tail slice belong to the chain.
  pub Owned-tail :
      (mem : Bytes) (level first : ℕ) (nexts bytes : List ℕ)
      → Holds mem w last level first nexts bytes
      → (o : ℕ) → w.cur ≤ o
      → o < w.slice_end + 4
      → Owned level first nexts o
  Owned-tail mem level first [] bytes h o low high = (omega (arith, h.low), omega (arith, h.end))
  Owned-tail mem level first (next ∷ nexts) bytes (rest, l, h) o low high =
      inr (Owned-tail mem (next_level level) next nexts rest h o low high)

  -- A chain depends on its own bytes only.
  pub Holds-Agree :
      (mem mem' : Bytes) (level first : ℕ) (nexts bytes : List ℕ)
      → Holds mem w last level first nexts bytes
      → Agree (Owned level first nexts) mem mem'
      → Holds mem' w last level first nexts bytes
  Holds-Agree mem mem' level first [] bytes h agree = record {
    last_level = h.last_level;
    end = h.end;
    low = h.low;
    high = h.high;
    payload =
        h.payload
        ∙ sym (
            run-Agree mem mem' first (w.cur - first)
              (λ o r. agree o (omega (arith, r), omega (arith, r, h.high, h.end, h.low))));
    zero_ptr =
        read_ptr-Agree mem mem' w.slice_end
          (λ o r. agree o (omega (arith, r, h.end), omega (arith, r, h.end)))
        ∙ h.zero_ptr;
  }
  Holds-Agree mem mem' level first (next ∷ nexts) bytes (rest, l, h) agree = (
    rest,
    record {
      above = l.above;
      ptr =
          read_ptr-Agree mem mem' (first + slice_size level)
            (λ o r. agree o (inl (omega (arith, r), omega (arith, r))))
          ∙ l.ptr;
      payload =
          rw
            (run-Agree mem mem' first (slice_size level)
              (λ o r. agree o (inl (omega (arith, r), omega (arith, r)))))
            (l.payload);
    },
    Holds-Agree mem mem' (next_level level) next nexts rest h (λ o own. agree o (inr own)),
  )
