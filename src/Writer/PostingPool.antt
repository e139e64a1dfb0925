-- ===== src/Writer/PostingPool.antt =====
-- core/include/snii/writer/compact_posting_pool.h, core/src/writer/compact_posting_pool.cpp
-- The blocks are one memory, by absolute offset. An operation that can throw std::overflow_error returns
-- an Option, none for the throw.
pub mod Memory
pub mod Alloc
pub mod Slices
pub mod Chain
pub mod Append
pub mod Refine
pub mod Steps
pub mod Drain
pub mod Ops
pub mod Trace
use snii.Common.{
  ℕ, zero, suc, ◌+◌, ◌-◌, ◌*◌, ◌/◌, ◌%◌, ◌^◌, Bool, true, false, List, [], ◌∷◌, Option, none, some,
  get_or, bit_and, ltb, ◌==◌, not, ◌||◌, if◌then◌else◌,
}

abbrev pub block_shift : ℕ
block_shift = 15

abbrev pub block_size : ℕ
block_size = 2 ^ block_shift

abbrev pub block_mask : ℕ
block_mask = block_size - 1

abbrev pub ptr_bytes : ℕ
ptr_bytes = 4

-- kSliceSizes
abbrev pub slice_sizes : List ℕ
slice_sizes =
    5 ∷ 8 ∷ 12 ∷ 18 ∷ 27 ∷ 40 ∷ 60 ∷ 90 ∷ 135 ∷ 202 ∷ 303 ∷ 455 ∷ 683 ∷ 1024 ∷ 1536 ∷ 2304 ∷ []

-- kNextLevel
abbrev pub next_levels : List ℕ
next_levels = 1 ∷ 2 ∷ 3 ∷ 4 ∷ 5 ∷ 6 ∷ 7 ∷ 8 ∷ 9 ∷ 10 ∷ 11 ∷ 12 ∷ 13 ∷ 14 ∷ 15 ∷ 15 ∷ []

unfoldable pub slice_size : ℕ → ℕ
slice_size level = get_or slice_sizes level 0

unfoldable pub next_level : ℕ → ℕ
next_level level = get_or next_levels level 0

abbrev pub Bytes : Type 0
Bytes = ℕ → ℕ

unfoldable pub store : Bytes → ℕ → ℕ → Bytes
store mem off value o = if o == off then value else mem o

-- The object representation of a uint32_t on a little-endian machine.
unfoldable pub read_ptr : Bytes → ℕ → ℕ
read_ptr mem slice_end =
    mem slice_end
    + mem (slice_end + 1) * 2 ^ 8
    + mem (slice_end + 2) * 2 ^ 16
    + mem (slice_end + 3) * 2 ^ 24

unfoldable pub write_ptr : Bytes → ℕ → ℕ → Bytes
write_ptr mem slice_end next_head =
    store
      (store
        (store (store mem slice_end (next_head % 2 ^ 8)) (slice_end + 1)
          (next_head / 2 ^ 8 % 2 ^ 8))
        (slice_end + 2) (next_head / 2 ^ 16 % 2 ^ 8))
      (slice_end + 3) (next_head / 2 ^ 24 % 2 ^ 8)

-- `blocks_.emplace_back(kBlockSize, 0)`, where the block starts at `base`
unfoldable pub fresh_block : Bytes → ℕ → Bytes
fresh_block mem base o =
    if ltb o base then mem o else if ltb o (base + block_size) then 0 else mem o

pub record Pool : Type 0 where
  pub mem : Bytes
  pub block_count : ℕ
  pub next_offset : ℕ
  pub payload_bytes : ℕ

unfoldable pub reset : Pool → Pool
reset p = record { mem = λ o. 0; block_count = 0; next_offset = 0; payload_bytes = 0 }

unfoldable pub need_block : Pool → ℕ → Bool
need_block p bytes =
    not (ltb (p.next_offset / 2 ^ block_shift) p.block_count)
    || ltb block_size ((bit_and p.next_offset block_mask + bytes) % 2 ^ 32)

unfoldable pub add_block : Pool → Pool
add_block p = record p {
  mem = fresh_block p.mem (p.block_count * block_size);
  block_count = p.block_count + 1;
  next_offset = p.block_count * block_size % 2 ^ 32;
}

-- The run is taken off the tail of a pool that has room for it.
unfoldable pub take_run : Pool → ℕ → ℕ × Pool
take_run p bytes = (p.next_offset, record p { next_offset = (p.next_offset + bytes) % 2 ^ 32 })

unfoldable pub alloc_run : Pool → ℕ → Option (ℕ × Pool)
alloc_run p bytes =
    let fresh = need_block p bytes in
    let run_start = if fresh then p.block_count * block_size % 2 ^ 64 else p.next_offset in
    if ltb (2 ^ 32 - 1) (run_start + bytes)
    then none
    else some (take_run (if fresh then add_block p else p) bytes)

pub record SliceWriter : Type 0 where
  pub cur : ℕ
  pub slice_end : ℕ

-- The first offset of the slice and the pool, its forward pointer zeroed.
abbrev alloc_rest : ℕ → Option (ℕ × Pool) → Option (ℕ × Pool)
alloc_rest level none = none
alloc_rest level (some (first, p)) =
    some (first, record p { mem = write_ptr p.mem ((first + slice_size level) % 2 ^ 32) 0 })

unfoldable pub alloc_slice : Pool → ℕ → Option (ℕ × Pool)
alloc_slice p level = alloc_rest level (alloc_run p (slice_size level + ptr_bytes))

-- The handle, the level and the pool of a chain.
pub record Handle : Type 0 where
  pub writer : SliceWriter
  pub level : ℕ
  pub pool : Pool

abbrev writer_at : ℕ → ℕ → SliceWriter
writer_at first level = record { cur = first; slice_end = (first + slice_size level) % 2 ^ 32 }

abbrev start_rest : Option (ℕ × Pool) → Option (ℕ × Handle)
start_rest none = none
start_rest (some (head, p)) = some (head, record { writer = writer_at head 0; level = 0; pool = p })

unfoldable pub start_chain : Pool → Option (ℕ × Handle)
start_chain p = start_rest (alloc_slice p 0)

abbrev grow_rest : Handle → Option (ℕ × Pool) → Option Handle
grow_rest h none = none
grow_rest h (some (new_head, p)) = some (record {
  writer = writer_at new_head (next_level h.level);
  level = next_level h.level;
  pool = record p { mem = write_ptr p.mem h.writer.slice_end new_head };
})

-- A full slice is followed by a new one.
unfoldable pub grow : Handle → Option Handle
grow h = grow_rest h (alloc_slice h.pool (next_level h.level))

unfoldable pub put_value : ℕ → Handle → Handle
put_value value h = record h {
  writer = record h.writer { cur = (h.writer.cur + 1) % 2 ^ 32 };
  pool = record h.pool {
    mem = store h.pool.mem h.writer.cur value;
    payload_bytes = (h.pool.payload_bytes + 1) % 2 ^ 64;
  };
}

abbrev append_rest : ℕ → Option Handle → Option Handle
append_rest value none = none
append_rest value (some h) = some (put_value value h)

unfoldable pub append_byte : Handle → ℕ → Option Handle
append_byte h value =
    append_rest value (if h.writer.cur == h.writer.slice_end then grow h else some h)

pub record Cursor : Type 0 where
  pub cur : ℕ
  pub slice_end : ℕ
  pub level : ℕ
  pub budget : ℕ

unfoldable pub cursor : ℕ → ℕ → Cursor
cursor head budget = record {
  cur = head;
  slice_end = (head + slice_size 0) % 2 ^ 32;
  level = 0;
  budget = budget;
}

unfoldable pub has_next : Bytes → Cursor → Bool
has_next mem c =
    if c.budget == 0
    then false
    else if c.cur == c.slice_end
    then not (read_ptr mem c.slice_end == 0)
    else true

abbrev read_here : Bytes → Cursor → ℕ × Cursor
read_here mem c = (mem c.cur, record c { cur = (c.cur + 1) % 2 ^ 32; budget = c.budget - 1 })

abbrev follow : Cursor → ℕ → Cursor
follow c next_head = record c {
  level = next_level c.level;
  cur = next_head;
  slice_end = (next_head + slice_size (next_level c.level)) % 2 ^ 32;
}

unfoldable pub next : Bytes → Cursor → ℕ × Cursor
next mem c =
    let next_head = read_ptr mem c.slice_end in
    if c.budget == 0
    then (0, c)
    else if c.cur == c.slice_end
    then (if next_head == 0
        then (0, record c { budget = 0 })
        else read_here mem (follow c next_head))
    else read_here mem c
