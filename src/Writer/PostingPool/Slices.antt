-- ===== src/Writer/PostingPool/Slices.antt =====
-- CompactPostingPool::alloc_slice of core/src/writer/compact_posting_pool.cpp and the slice schedule.
use snii.Writer.PostingPool.Memory.{read_ptr-write_ptr, write_ptr_other, Agree}
use snii.Writer.PostingPool.Alloc.{Allocated, alloc_run_lem, IsPool, IsFull}
use snii.Writer.PostingPool.{
  slice_sizes, next_levels, write_ptr, ptr_bytes, read_ptr, alloc_slice, Pool, slice_size,
  next_level,
}
use snii.Common.{
  ◌∙◌, ℕ, zero, suc, ◌+◌, ◌%◌, ◌^◌, ◌≤◌, ◌<◌, ◌≡◌, ◌⊎◌, inl, inr, refl, arith, Bool, true, ◌&&◌,
  List, [], ◌∷◌, length, get_or, Option, none, some, ltb, leb,
}

between : List ℕ → Bool
between [] = true
between (x ∷ xs) = (ltb 4 x && leb x 2304) && between xs

between-get_or :
    (xs : List ℕ) (i : ℕ)
    → between xs ≡ true
    → i < length xs
    → (5 ≤ get_or xs i 0) × (get_or xs i 0 ≤ 2304)
unfolding between
between-get_or [] i h lt = absurd (omega arith)
between-get_or (x ∷ xs) zero h lt = ground (arith, h)
between-get_or (x ∷ xs) (suc i) h lt = between-get_or xs i (ground (arith, h)) (omega arith)

pub slice_size-range : (level : ℕ) → level < 16 → (5 ≤ slice_size level) × (slice_size level ≤ 2304)
unfolding slice_size between
slice_size-range level h = between-get_or slice_sizes level refl h

below_16 : List ℕ → Bool
below_16 [] = true
below_16 (x ∷ xs) = ltb x 16 && below_16 xs

below_16-get_or : (xs : List ℕ) (i : ℕ) → below_16 xs ≡ true → get_or xs i 0 < 16
unfolding below_16
below_16-get_or [] i h = omega arith
below_16-get_or (x ∷ xs) zero h = ground (arith, h)
below_16-get_or (x ∷ xs) (suc i) h = below_16-get_or xs i (ground (arith, h))

pub next_level-lt : (level : ℕ) → next_level level < 16
unfolding next_level below_16
next_level-lt level = below_16-get_or next_levels level refl

-- A slice above all that was given out, with its forward pointer zero.
pub record NewSlice (p : Pool) (level first : ℕ) (p' : Pool) : Type 0 where
  pub above : p.next_offset ≤ first
  pub next_offset : p'.next_offset ≡ first + slice_size level + 4
  pub pool : IsPool p'
  pub blocks : p'.block_count ≤ p.block_count + 1
  pub kept : Agree (λ o. o < p.next_offset) p.mem p'.mem
  pub zeroed : read_ptr p'.mem (first + slice_size level) ≡ 0

abbrev pub AllocatesSlice : Pool → ℕ → Option (ℕ × Pool) → Type 0
AllocatesSlice p level result =
    ((result ≡ none) × IsFull p)
    ⊎ ((first : ℕ) × (p' : Pool) × (result ≡ some (first, p')) × NewSlice p level first p')

module _ (p : Pool) (level : ℕ) where
  new_slice :
      (first : ℕ) (q : Pool)
      → Allocated p (slice_size level + ptr_bytes) first q
      → NewSlice p level first
          (record q { mem = write_ptr q.mem ((first + slice_size level) % 2 ^ 32) 0 })
  new_slice first q a = record {
    above = a.above;
    next_offset = omega (arith, a.next_offset);
    pool = record { tail = a.pool.tail; high = a.pool.high; low = a.pool.low };
    blocks = a.blocks;
    kept = λ o h.
        rw end
          (write_ptr_other q.mem (first + slice_size level) 0 o (inl (omega (arith, h, a.above))))
        ∙ a.kept o h;
    zeroed = rw end (read_ptr-write_ptr q.mem (first + slice_size level) 0 (omega arith));
  }
    where
      end : (first + slice_size level) % 2 ^ 32 ≡ first + slice_size level
      end = omega (arith, a.next_offset, a.pool.low)

-- alloc_slice throws only on a full arena.
pub alloc_slice_lem :
    (p : Pool) (level : ℕ) → level < 16 → IsPool p → AllocatesSlice p level (alloc_slice p level)
unfolding alloc_slice
alloc_slice_lem p level lt v =
    elim (alloc_run_lem p (slice_size level + ptr_bytes) v (omega arith)
      (omega (arith, slice_size-range level lt))) [
        | inl full ↦ rw (full.0) (inl (refl, full.1))
        | inr (first, q, e, a) ↦ rw e (
            inr (
              first,
              record q { mem = write_ptr q.mem ((first + slice_size level) % 2 ^ 32) 0 },
              refl,
              new_slice p level first q a,
            ))
      ]
