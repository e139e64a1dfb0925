-- ===== src/Writer/PostingPool/Trace.antt =====
-- Sequences of start_chain and append_byte calls on an empty pool
-- (core/src/writer/compact_posting_pool.cpp).
use snii.Writer.PostingPool.Ops.{
  start, append, TermChain, step, run_ops, run_spec, spec_step, append_to, append_at, Op,
}
use snii.Writer.PostingPool.{cursor, reset, Pool}
use snii.Writer.PostingPool.Steps.{start_chain_lem, Begins, append_byte_lem}
use snii.Writer.PostingPool.Drain.{drain, drain-cursor}
use snii.Common.{
  ◌^◌, ℕ, zero, suc, ◌+◌, ◌≤◌, ◌<◌, ◌≡◌, sym, ap, ◌⊎◌, inl, inr, refl, arith, List, [], ◌∷◌, map,
  All, length, Option, none, some,
}
use snii.Writer.PostingPool.Refine.{Evolves, IsChain, Apart, Chain}
use snii.Writer.PostingPool.Alloc.{IsPool, IsFull}

abbrev term_of : Chain → TermChain
term_of c = record { head = c.head; writer = c.writer; level = c.level }

abbrev Pairwise : List Chain → Type 0
Pairwise [] = Unit {0}
Pairwise (c ∷ cs) = All (λ d. Apart d c) cs × Pairwise cs

-- A pool with chains that do not share a byte.
record Holding (p : Pool) (cs : List Chain) : Type 0 where
  pool : IsPool p
  chains : All (IsChain p) cs
  apart : Pairwise cs

-- A step from chains to chains; a chain apart from them stays so.
record Moves (p : Pool) (cs : List Chain) (p' : Pool) (cs' : List Chain) : Type 0 where
  holding : Holding p' cs'
  blocks : p'.block_count ≤ p.block_count + 1
  others :
      (d : Chain) → IsChain p d → All (λ c. Apart c d) cs → IsChain p' d × All (λ c. Apart c d) cs'

abbrev AppendsAt : Pool → List Chain → ℕ → ℕ → Option (Pool × List TermChain) → Type 0
AppendsAt p cs i value result =
    ((result ≡ none) × IsFull p)
    ⊎ ((p' : Pool) × (cs' : List Chain) × (result ≡ some (p', map term_of cs'))
        × (map (λ (c : Chain). c.bytes) cs' ≡ append_to (map (λ (c : Chain). c.bytes) cs) i value)
        × Moves p cs p' cs')

others_all :
    (p p' : Pool) (c c' : Chain) (cs : List Chain)
    → Evolves p c p' c'
    → All (IsChain p) cs
    → All (λ d. Apart d c) cs
    → All (IsChain p') cs × All (λ d. Apart d c') cs
others_all p p' c c' [] moves chains apart = (tt, tt)
others_all p p' c c' (d ∷ cs) moves chains apart =
    let m = moves.others d (chains.0) (λ o mine own. apart.0 o own mine) in
    let rest = others_all p p' c c' cs moves (chains.1) (apart.1) in
    ((m.0, rest.0), (λ o own mine. m.1 o mine own, rest.1))

append_at_lem :
    (p : Pool) (cs : List Chain) (i value : ℕ)
    → Holding p cs
    → AppendsAt p cs i value (append_at p (map term_of cs) i value)
append_at_lem p [] i value v = inr (
  p,
  [],
  refl,
  refl,
  record { holding = v; blocks = omega arith; others = λ d vd apart. (vd, apart) },
)
append_at_lem p (c ∷ cs) zero value v = elim (append_byte_lem p c value v.pool ((v.chains).0)) [
  | inl full ↦ rw (full.0) (inl (refl, full.1))
  | inr (p', c', e, bytes, moves) ↦
      let rest = others_all p p' c c' cs moves ((v.chains).1) ((v.apart).0) in
      rw e (
        inr (
          p',
          c' ∷ cs,
          ap
              (λ (h : ℕ).
                some
                  (p', record { head = h; writer = c'.writer; level = c'.level } ∷ map term_of cs))
              (sym moves.head),
          ap (λ (bs : List ℕ). bs ∷ map (λ (x : Chain). x.bytes) cs) bytes,
          record {
            holding = record {
              pool = moves.pool;
              chains = (moves.chain, rest.0);
              apart = (rest.1, (v.apart).1);
            };
            blocks = moves.blocks;
            others = λ d vd apart. let m = moves.others d vd (apart.0) in (m.0, (m.1, apart.1));
          },
        ))
]
append_at_lem p (c ∷ cs) (suc i) value v =
    elim (append_at_lem p cs i value
      (record { pool = v.pool; chains = (v.chains).1; apart = (v.apart).1 })) [
        | inl full ↦ rw (full.0) (inl (refl, full.1))
        | inr (p', cs', e, bytes, moves) ↦
            let mine = moves.others c ((v.chains).0) ((v.apart).0) in
            rw e (
              inr (
                p',
                c ∷ cs',
                refl,
                ap (λ (bss : List (List ℕ)). c.bytes ∷ bss) bytes,
                record {
                  holding = record {
                    pool = moves.holding.pool;
                    chains = (mine.0, moves.holding.chains);
                    apart = (mine.1, moves.holding.apart);
                  };
                  blocks = moves.blocks;
                  others =
                      λ d vd apart. let m = moves.others d vd (apart.1) in (m.0, (apart.0, m.1));
                },
              ))
      ]

abbrev Ran : ℕ → List (List ℕ) → Option (Pool × List TermChain) → Type 0
Ran blocks bss result =
    (p : Pool) × (cs : List Chain) × (result ≡ some (p, map term_of cs))
    × (map (λ (c : Chain). c.bytes) cs ≡ bss)
    × Holding p cs
    × (p.block_count ≤ blocks)

all-Apart :
    (p : Pool) (cs : List Chain) (p' : Pool) (c : Chain)
    → Begins p p' c
    → All (IsChain p) cs
    → All (IsChain p') cs × All (λ d. Apart d c) cs
all-Apart p [] p' c b chains = (tt, tt)
all-Apart p (d ∷ cs) p' c b chains =
    let m = b.others d (chains.0) in
    let rest = all-Apart p cs p' c b (chains.1) in
    ((m.0, rest.0), (λ o own mine. m.1 o mine own, rest.1))

-- One operation on a pool whose blocks are not at the limit.
step_lem :
    (p : Pool) (cs : List Chain) (op : Op)
    → Holding p cs
    → p.block_count + 1 < 2 ^ 17
    → Ran
        (p.block_count + 1)
        (spec_step (map (λ (c : Chain). c.bytes) cs) op)
        (step p (map term_of cs) op)
step_lem p cs start v few = elim (start_chain_lem p v.pool) [
  | inl full ↦ absurd (omega (arith, full.1, few))
  | inr (p', c, e, b) ↦
      let rest = all-Apart p cs p' c b v.chains in
      rw e (
        p',
        c ∷ cs,
        refl,
        ap (λ (bs : List ℕ). bs ∷ map (λ (x : Chain). x.bytes) cs) b.empty,
        record { pool = b.pool; chains = (b.chain, rest.0); apart = (rest.1, v.apart) },
        b.blocks,
      )
]
step_lem p cs (append i value) v few = elim (append_at_lem p cs i value v) [
  | inl full ↦ absurd (omega (arith, full.1, few))
  | inr (p', cs', e, bytes, moves) ↦ rw e (p', cs', refl, bytes, moves.holding, moves.blocks)
]

run_lem :
    (ops : List Op) (p : Pool) (cs : List Chain)
    → Holding p cs
    → p.block_count + length ops < 2 ^ 17
    → Ran
        (p.block_count + length ops)
        (run_spec ops (map (λ (c : Chain). c.bytes) cs))
        (run_ops ops (some (p, map term_of cs)))
run_lem [] p cs v few = (p, cs, refl, refl, v, omega arith)
run_lem (op ∷ ops) p cs v few =
    let (p', cs', e, bytes, v', blocks) = step_lem p cs op v (omega (arith, few)) in
    let (q, ds, e', bytes', v'', blocks') = run_lem ops p' cs' v' (omega (arith, few, blocks)) in
    rw (e, ← bytes) (q, ds, e', bytes', v'', omega (arith, blocks, blocks'))

-- What cursors read of the chains, each with the length of a byte sequence as its budget.
abbrev pub read_all : Pool → List TermChain → List (List ℕ) → List (List ℕ)
read_all p [] bss = []
read_all p (t ∷ ts) [] = []
read_all p (t ∷ ts) (bs ∷ bss) =
    drain (suc (length bs)) p.mem (cursor t.head (length bs)) ∷ read_all p ts bss

read_all_lem :
    (p : Pool) (cs : List Chain)
    → Holding p cs
    → read_all p (map term_of cs) (map (λ (c : Chain). c.bytes) cs)
      ≡ map (λ (c : Chain). c.bytes) cs
read_all_lem p [] v = refl
read_all_lem p (c ∷ cs) v =
    rw
      (
        drain-cursor p c v.pool ((v.chains).0),
        read_all_lem p cs (record { pool = v.pool; chains = (v.chains).1; apart = (v.apart).1 }),
      )
      refl

-- Fewer than 131072 calls of start_chain and append_byte in any order on an empty pool do not throw, and
-- a cursor over each chain, with the number of its bytes as the budget, reads the bytes that were
-- appended to that chain, in order.
pub run_ops-reset :
    (ops : List Op) (old : Pool)
    → length ops < 2 ^ 17
    → (p : Pool) × (ts : List TermChain) × (run_ops ops (some (reset old, [])) ≡ some (p, ts))
      × (read_all p ts (run_spec ops []) ≡ run_spec ops [])
run_ops-reset ops old few =
    let (p, cs, e, bytes, v, blocks) =
      run_lem ops (reset old) [] empty (unfold reset in omega (arith, few)) in
    (p, map term_of cs, e, rw (← bytes) (read_all_lem p cs v))
  where
    empty : Holding (reset old) []
    empty =
        unfold reset in
        record {
          pool = record { tail = omega arith; high = omega arith; low = omega arith };
          chains = tt;
          apart = tt;
        }
