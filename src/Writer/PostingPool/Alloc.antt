-- ===== src/Writer/PostingPool/Alloc.antt =====
-- CompactPostingPool::alloc_run and alloc_slice of core/src/writer/compact_posting_pool.cpp.
use snii.Writer.PostingPool.{
  block_shift, need_block, add_block, alloc_run, take_run, Bytes, block_size, Pool, fresh_block,
}
use snii.Common.Bits.{bit_and_mask}
use snii.Common.{
  ap, ◌||◌, if◌then◌else◌, not, ℕ, ◌+◌, ◌-◌, ◌*◌, ◌/◌, ◌%◌, ◌^◌, ◌≤◌, ◌<◌, ◌≡◌, ◌⊎◌, inl, inr, refl,
  arith, false, Option, none, some, Bool-cases, ltb, ltb→lt,
}
use snii.Writer.PostingPool.Memory.{Agree}

-- The bump pointer is within the blocks, and every offset fits 32 bits.
pub record IsPool (p : Pool) : Type 0 where
  pub tail : p.next_offset ≤ p.block_count * block_size
  pub high : p.block_count * block_size ≤ 2 ^ 32
  pub low : p.next_offset < 2 ^ 32

-- A run of bytes off the tail: it lies within one block, above all that was given out, and what was
-- given out is as it was.
pub record Allocated (p : Pool) (bytes off : ℕ) (p' : Pool) : Type 0 where
  pub above : p.next_offset ≤ off
  pub next_offset : p'.next_offset ≡ off + bytes
  pub one_block : off / block_size ≡ (off + bytes - 1) / block_size
  pub pool : IsPool p'
  pub blocks : p'.block_count ≤ p.block_count + 1
  pub kept : Agree (λ o. o < p.next_offset) p.mem p'.mem

-- The arena is full to the last block.
abbrev pub IsFull : Pool → Type 0
IsFull p = 2 ^ 32 ≤ (p.block_count + 1) * block_size

abbrev pub Allocates : Pool → ℕ → Option (ℕ × Pool) → Type 0
Allocates p bytes result =
    ((result ≡ none) × IsFull p)
    ⊎ ((off : ℕ) × (p' : Pool) × (result ≡ some (off, p')) × Allocated p bytes off p')

fresh_block_below : (mem : Bytes) (base o : ℕ) → o < base → fresh_block mem base o ≡ mem o
unfolding fresh_block
fresh_block_below mem base o h = ground (arith, h)

module _ (p : Pool) (bytes : ℕ) (v : IsPool p) (some_bytes : 1 ≤ bytes)
    (few_bytes : bytes ≤ block_size) where
  -- The run at the start of a new block.
  Allocated-fresh :
      p.block_count * block_size + bytes < 2 ^ 32
      → Allocated p bytes (p.block_count * block_size) ((take_run (add_block p) bytes).1)
  unfolding take_run add_block
  Allocated-fresh room = record {
    above = v.tail;
    next_offset = omega (arith, room);
    one_block = omega (arith, some_bytes, few_bytes);
    pool = record {
      tail = omega (arith, room, few_bytes);
      high = omega (arith, room, few_bytes);
      low = omega arith;
    };
    blocks = omega arith;
    kept = λ o h. fresh_block_below p.mem _ o (omega (arith, h, v.tail));
  }

  -- The run in the tail block.
  Allocated-tail :
      p.next_offset / block_size < p.block_count
      → p.next_offset % block_size + bytes ≤ block_size
      → p.next_offset + bytes < 2 ^ 32
      → Allocated p bytes p.next_offset ((take_run p bytes).1)
  unfolding take_run
  Allocated-tail exists fits room = record {
    above = omega arith;
    next_offset = omega (arith, room);
    one_block = omega (arith, some_bytes, fits);
    pool = record { tail = omega (arith, exists, fits, room); high = v.high; low = omega arith };
    blocks = omega arith;
    kept = λ o h. refl;
  }

  tail_fits :
      need_block p bytes ≡ false
      → (p.next_offset / block_size < p.block_count)
        × (p.next_offset % block_size + bytes ≤ block_size)
  unfolding need_block
  tail_fits h =
      let e : not (ltb (p.next_offset / block_size) p.block_count)
            || ltb block_size ((p.next_offset % block_size + bytes) % 2 ^ 32)
          ≡ false =
        rw (← bit_and_mask block_shift p.next_offset) h in
      ground (arith, e, few_bytes)

  fresh_run : Allocates p bytes (
      if ltb (2 ^ 32 - 1) (p.block_count * block_size + bytes)
      then none
      else some (take_run (add_block p) bytes))
  fresh_run = elim (Bool-cases (ltb (2 ^ 32 - 1) (p.block_count * block_size + bytes))) [
    | inl over ↦ rw over (inl (refl, omega (arith, ltb→lt _ _ over, few_bytes)))
    | inr room ↦
        let fits : p.block_count * block_size + bytes < 2 ^ 32 = ground (arith, room) in
        rw room (
          inr (
            _,
            _,
            ap (λ (o : ℕ). some (o, (take_run (add_block p) bytes).1)) (place fits),
            Allocated-fresh fits,
          ))
  ]
    where
      place :
          p.block_count * block_size + bytes < 2 ^ 32
          → (take_run (add_block p) bytes).0 ≡ p.block_count * block_size
      place fits = unfold take_run add_block in omega (arith, fits)

  tail_run :
      need_block p bytes ≡ false
      → Allocates p bytes
          (if ltb (2 ^ 32 - 1) (p.next_offset + bytes) then none else some (take_run p bytes))
  tail_run old = elim (Bool-cases (ltb (2 ^ 32 - 1) (p.next_offset + bytes))) [
    | inl over ↦ rw over (inl (refl, omega (arith, ltb→lt _ _ over, tail_fits old)))
    | inr room ↦ rw room (
        inr (
          p.next_offset,
          (take_run p bytes).1,
          unfold take_run in refl,
          Allocated-tail ((tail_fits old).0) ((tail_fits old).1) (ground (arith, room)),
        ))
  ]

  -- alloc_run of a run of 1 to 32768 bytes throws only on a full arena; else the run lies within one
  -- block, above all that was given out.
  pub alloc_run_lem : Allocates p bytes (alloc_run p bytes)
  unfolding alloc_run
  alloc_run_lem = elim (Bool-cases (need_block p bytes)) [
    | inl fresh ↦ rw (fresh, start) fresh_run
    | inr old ↦ rw old (tail_run old)
  ]
    where
      start : p.block_count * block_size % 2 ^ 64 ≡ p.block_count * block_size
      start = omega (arith, v.high)
