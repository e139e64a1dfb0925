-- ===== src/Writer/PostingPool/Refine.antt =====
-- start_chain and append_byte of core/src/writer/compact_posting_pool.cpp beside byte sequences.
use snii.Writer.PostingPool.Slices.{next_level-lt, NewSlice}
use snii.Writer.PostingPool.Append.{Holds-grow, Owned-grow, Holds-store}
use snii.Common.{
  ltb→lt, ltb, ℕ, ◌+◌, ◌%◌, ◌^◌, ◌≤◌, ◌<◌, ◌≡◌, ◌∙◌, inl, inr, refl, arith, List, [], ◌∷◌, ◌++◌,
  Bool-cases,
}
use snii.Writer.PostingPool.Memory.{write_ptr_other, store_other, Agree}
use snii.Writer.PostingPool.{
  slice_size, write_ptr, next_level, store, put_value, Handle, SliceWriter, Pool,
}
use snii.Writer.PostingPool.Chain.{Holds-Agree, Owned-tail, Holds, Owned-lt, Owned}
use snii.Writer.PostingPool.Alloc.{IsPool}

-- A term's chain: where it starts, its later slices, the state that its owner keeps, and its bytes.
pub record Chain : Type 0 where
  pub head : ℕ
  pub nexts : List ℕ
  pub writer : SliceWriter
  pub level : ℕ
  pub bytes : List ℕ

abbrev pub Owns : Chain → ℕ → Type 0
Owns c o = Owned 0 c.head c.nexts o

-- The pool holds the chain.
pub record IsChain (p : Pool) (c : Chain) : Type 0 where
  pub holds : Holds p.mem c.writer c.level 0 c.head c.nexts c.bytes
  pub room : c.writer.slice_end + 4 ≤ p.next_offset
  pub level16 : c.level < 16

abbrev pub Apart : Chain → Chain → Type 0
Apart c d = (o : ℕ) → Owns c o → ¬ Owns d o

abbrev pub handle : Pool → Chain → Handle
handle p c = record { writer = c.writer; level = c.level; pool = p }

-- A step of the pool that turns the chain `c` into `c'` and leaves each chain apart from it as it is.
pub record Evolves (p : Pool) (c : Chain) (p' : Pool) (c' : Chain) : Type 0 where
  pub head : c'.head ≡ c.head
  pub chain : IsChain p' c'
  pub pool : IsPool p'
  pub blocks : p'.block_count ≤ p.block_count + 1
  pub others : (d : Chain) → IsChain p d → Apart c d → IsChain p' d × Apart c' d

pub owned_below : (p : Pool) (d : Chain) → IsChain p d → (o : ℕ) → Owns d o → o < p.next_offset
owned_below p d v o own =
    omega (arith, v.room, Owned-lt d.writer d.level p.mem 0 d.head d.nexts d.bytes v.holds o own)

-- What leaves a chain's own bytes and the room for it alone leaves the chain alone.
pub IsChain-Agree :
    (p p' : Pool) (d : Chain)
    → IsChain p d
    → p.next_offset ≤ p'.next_offset
    → Agree (Owns d) p.mem p'.mem
    → IsChain p' d
IsChain-Agree p p' d v more agree = record {
  holds = Holds-Agree d.writer d.level p.mem p'.mem 0 d.head d.nexts d.bytes v.holds agree;
  room = omega (arith, v.room, more);
  level16 = v.level16;
}

module _ (p : Pool) (c : Chain) (pool : IsPool p) (v : IsChain p c) where
  abbrev pub stored : ℕ → Chain
  stored value = record c {
    writer = record c.writer { cur = c.writer.cur + 1 };
    bytes = c.bytes ++ (value ∷ []);
  }

  abbrev pub stored_pool : ℕ → Pool
  stored_pool value = record p {
    mem = store p.mem c.writer.cur value;
    payload_bytes = (p.payload_bytes + 1) % 2 ^ 64;
  }

  -- A byte put into the room of the tail slice.
  pub put_Evolves :
      (value : ℕ)
      → c.writer.cur < c.writer.slice_end
      → Evolves p c (stored_pool value) (stored value)
  put_Evolves value room = record {
    head = refl;
    chain = record {
      holds = Holds-store p.mem c.writer c.level 0 c.head c.nexts c.bytes value v.holds room;
      room = v.room;
      level16 = v.level16;
    };
    pool = record { tail = pool.tail; high = pool.high; low = pool.low };
    blocks = omega arith;
    others = λ d vd apart. (
      IsChain-Agree p (stored_pool value) d vd (omega arith)
          (λ o own. store_other p.mem c.writer.cur value o (λ e. absurd (apart o (mine o e) own))),
      apart,
    );
  }
    where
      mine : (o : ℕ) → o ≡ c.writer.cur → Owns c o
      mine o e =
          Owned-tail c.writer c.level p.mem 0 c.head c.nexts c.bytes v.holds o (omega (arith, e))
            (omega (arith, e, room))

  pub put_value_lem :
      (value : ℕ)
      → c.writer.cur < c.writer.slice_end
      → put_value value (handle p c) ≡ handle (stored_pool value) (stored value)
  unfolding put_value
  put_value_lem value room = rw cur refl
    where
      cur : (c.writer.cur + 1) % 2 ^ 32 ≡ c.writer.cur + 1
      cur = omega (arith, room, v.room, pool.low)

  module _ (head : ℕ) (q : Pool) (s : NewSlice p (next_level c.level) head q)
      (full : c.writer.cur ≡ c.writer.slice_end) where
    abbrev pub grown : Chain
    grown = record c {
      nexts = c.nexts ++ (head ∷ []);
      writer = record { cur = head; slice_end = head + slice_size (next_level c.level) };
      level = next_level c.level;
    }

    abbrev pub grown_pool : Pool
    grown_pool = record q { mem = write_ptr q.mem c.writer.slice_end head }

    moved : Holds q.mem c.writer c.level 0 c.head c.nexts c.bytes
    moved =
        Holds-Agree c.writer c.level p.mem q.mem 0 c.head c.nexts c.bytes v.holds
          (λ o own. s.kept o (owned_below p c v o own))

    pub grow_Evolves : Evolves p c grown_pool grown
    grow_Evolves = record {
      head = refl;
      chain = record {
        holds =
            Holds-grow q.mem c.writer c.level head (omega (arith, v.room, s.above))
              (omega (arith, s.next_offset, s.pool.low)) 0 c.head c.nexts c.bytes moved full
              s.zeroed;
        room = omega (arith, s.next_offset);
        level16 = next_level-lt c.level;
      };
      pool = record { tail = s.pool.tail; high = s.pool.high; low = s.pool.low };
      blocks = s.blocks;
      others = λ d vd apart. (
        IsChain-Agree p grown_pool d vd (omega (arith, s.above, s.next_offset))
            (untouched d vd apart),
        apart_grown d vd apart,
      );
    }
      where
        untouched :
            (d : Chain)
            → IsChain p d
            → Apart c d
            → Agree (Owns d) p.mem (write_ptr q.mem c.writer.slice_end head)
        untouched d vd apart o own = elim (Bool-cases (ltb o c.writer.slice_end)) [
          | inl below ↦
              write_ptr_other q.mem c.writer.slice_end head o (inl (ltb→lt _ _ below))
              ∙ s.kept o (owned_below p d vd o own)
          | inr other ↦ elim (Bool-cases (ltb o (c.writer.slice_end + 4))) [
            | inl mine ↦ absurd (
                apart o
                  (Owned-tail c.writer c.level p.mem 0 c.head c.nexts c.bytes v.holds o
                    (ground (arith, other, full)) (ltb→lt _ _ mine))
                  own)
            | inr above ↦
                write_ptr_other q.mem c.writer.slice_end head o (inr (ground (arith, above)))
                ∙ s.kept o (owned_below p d vd o own)
          ]
        ]

        apart_grown : (d : Chain) → IsChain p d → Apart c d → Apart grown d
        apart_grown d vd apart o mine own =
            elim (Owned-grow q.mem c.writer c.level head (omega (arith, v.room, s.above))
              (omega (arith, s.next_offset, s.pool.low)) 0 c.head c.nexts c.bytes moved o mine) [
                | inl old ↦ apart o old own
                | inr new ↦ absurd (omega (arith, new, s.above, owned_below p d vd o own))
              ]
