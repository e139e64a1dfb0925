-- ===== src/Writer/PostingPool/Steps.antt =====
-- start_chain and append_byte of core/src/writer/compact_posting_pool.cpp, a call at a time.
use snii.Writer.PostingPool.Refine.{
  owned_below, IsChain-Agree, Apart, grow_Evolves, put_Evolves, put_value_lem, stored, stored_pool,
  handle, IsChain, Evolves, Chain,
}
use snii.Writer.PostingPool.{
  start_chain, slice_size, write_ptr, grow, next_level, put_value, append_byte, Handle, Pool,
}
use snii.Common.{
  ◌-◌, ℕ, ◌+◌, ◌%◌, ◌^◌, ◌≤◌, ◌<◌, ◌≡◌, ◌∙◌, ap, ◌⊎◌, inl, inr, refl, arith, [], ◌∷◌, ◌++◌, Option,
  none, some, ◌==◌, ==_iff, Bool-cases,
}
use snii.Writer.PostingPool.Slices.{slice_size-range, next_level-lt, alloc_slice_lem, NewSlice}
use snii.Writer.PostingPool.Chain.{Holds-high}
use snii.Writer.PostingPool.Alloc.{IsFull, IsPool}

-- One byte more at the end of the chain.
abbrev pub Appends : Pool → Chain → ℕ → Option Handle → Type 0
Appends p c value result =
    ((result ≡ none) × IsFull p)
    ⊎ ((p' : Pool) × (c' : Chain) × (result ≡ some (handle p' c'))
        × (c'.bytes ≡ c.bytes ++ (value ∷ []))
        × Evolves p c p' c')

module _ (p : Pool) (c : Chain) (value : ℕ) (pool : IsPool p) (v : IsChain p c) where
  Appends-room :
      c.writer.cur < c.writer.slice_end → Appends p c value (some (put_value value (handle p c)))
  Appends-room room = inr (
    stored_pool p c pool v value,
    stored p c pool v value,
    ap some (put_value_lem p c pool v value room),
    refl,
    put_Evolves p c pool v value room,
  )

  -- A new slice and then a byte in it, which takes no block.
  grown_put :
      {q : Pool} {d : Chain}
      → (g : Evolves p c q d)
      → Evolves q d (stored_pool q d g.pool g.chain value) (stored q d g.pool g.chain value)
      → Evolves p c (stored_pool q d g.pool g.chain value) (stored q d g.pool g.chain value)
  grown_put g b = record {
    head = b.head ∙ g.head;
    chain = b.chain;
    pool = b.pool;
    blocks = g.blocks;
    others = λ x vx apart. let mid = g.others x vx apart in b.others x (mid.0) (mid.1);
  }

  Appends-grown :
      (head : ℕ) (q : Pool)
      → NewSlice p (next_level c.level) head q
      → c.writer.cur ≡ c.writer.slice_end
      → Appends p c value (
          some (
            put_value value (
              handle
                (record q { mem = write_ptr q.mem c.writer.slice_end head })
                (record c {
                  writer = record {
                    cur = head;
                    slice_end = (head + slice_size (next_level c.level)) % 2 ^ 32;
                  };
                  level = next_level c.level;
                }))))
  Appends-grown head q s full = rw end (
      let g = grow_Evolves p c pool v head q s full in
      let room : head < head + slice_size (next_level c.level) =
        omega (arith, slice_size-range (next_level c.level) (next_level-lt c.level)) in
      inr (
        _,
        _,
        ap some (put_value_lem _ _ g.pool g.chain value room),
        refl,
        grown_put g (put_Evolves _ _ g.pool g.chain value room),
      ))
    where
      end :
          (head + slice_size (next_level c.level)) % 2 ^ 32 ≡ head + slice_size (next_level c.level)
      end = omega (arith, s.next_offset, s.pool.low)

  -- append_byte throws only on a full arena; else the chain holds one byte more, the given one, at its
  -- end, starts where it started, and every chain apart from it holds what it held and stays apart.
  pub append_byte_lem : Appends p c value (append_byte (handle p c) value)
  unfolding append_byte grow
  append_byte_lem = elim (Bool-cases (c.writer.cur == c.writer.slice_end)) [
    | inl full ↦ elim (alloc_slice_lem p (next_level c.level) (next_level-lt c.level) pool) [
      | inl none_left ↦ rw (full, none_left.0) (inl (refl, none_left.1))
      | inr (head, q, e, s) ↦ rw (full, e) (Appends-grown head q s ((==_iff _ _).0 full))
    ]
    | inr room ↦ rw room (
        Appends-room (
          ground (arith, room, Holds-high c.writer c.level p.mem 0 c.head c.nexts c.bytes v.holds)))
  ]

-- A new, empty chain apart from every chain that the pool holds; those are as they were.
pub record Begins (p p' : Pool) (c : Chain) : Type 0 where
  pub empty : c.bytes ≡ []
  pub chain : IsChain p' c
  pub pool : IsPool p'
  pub blocks : p'.block_count ≤ p.block_count + 1
  pub others : (d : Chain) → IsChain p d → IsChain p' d × Apart c d

abbrev pub BeginsChain : Pool → Option (ℕ × Handle) → Type 0
BeginsChain p result =
    ((result ≡ none) × IsFull p)
    ⊎ ((p' : Pool) × (c : Chain) × (result ≡ some (c.head, handle p' c)) × Begins p p' c)

abbrev new_chain : ℕ → Chain
new_chain head = record {
  head = head;
  nexts = [];
  writer = record { cur = head; slice_end = head + slice_size 0 };
  level = 0;
  bytes = [];
}

begins : (p q : Pool) (head : ℕ) → NewSlice p 0 head q → Begins p q (new_chain head)
begins p q head s = record {
  empty = refl;
  chain = record {
    holds = record {
      last_level = refl;
      end = refl;
      low = omega arith;
      high = omega arith;
      payload = rw nothing refl;
      zero_ptr = s.zeroed;
    };
    room = omega (arith, s.next_offset);
    level16 = omega arith;
  };
  pool = s.pool;
  blocks = s.blocks;
  others = λ d vd. (
    IsChain-Agree p q d vd (omega (arith, s.above, s.next_offset))
        (λ o own. s.kept o (owned_below p d vd o own)),
    λ o mine own. absurd (omega (arith, mine, s.above, owned_below p d vd o own)),
  );
}
  where
    nothing : head - head ≡ 0
    nothing = omega arith

-- start_chain throws only on a full arena; else it begins an empty chain apart from all others.
pub start_chain_lem : (p : Pool) → IsPool p → BeginsChain p (start_chain p)
unfolding start_chain
start_chain_lem p v = elim (alloc_slice_lem p 0 (omega arith) v) [
  | inl full ↦ rw (full.0) (inl (refl, full.1))
  | inr (head, q, e, s) ↦ rw e (started head q s)
]
  where
    started :
        (head : ℕ) (q : Pool)
        → NewSlice p 0 head q
        → BeginsChain p (
            some (
              head,
              record {
                writer = record { cur = head; slice_end = (head + slice_size 0) % 2 ^ 32 };
                level = 0;
                pool = q;
              },
            ))
    started head q s = rw end (inr (q, new_chain head, refl, begins p q head s))
      where
        end : (head + slice_size 0) % 2 ^ 32 ≡ head + slice_size 0
        end = omega (arith, s.next_offset, s.pool.low)
