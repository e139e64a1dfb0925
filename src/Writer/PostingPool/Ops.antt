-- ===== src/Writer/PostingPool/Ops.antt =====
-- Sequences of calls of core/src/writer/compact_posting_pool.cpp, and the same on byte sequences.
use snii.Writer.PostingPool.{start_chain, append_byte, SliceWriter, Handle, Pool}
use snii.Common.{ℕ, zero, suc, List, [], ◌∷◌, ◌++◌, Option, none, some}

-- What the owner of a chain keeps of it.
pub record TermChain : Type 0 where
  pub head : ℕ
  pub writer : SliceWriter
  pub level : ℕ

abbrev pub appended : ℕ → List TermChain → Option Handle → Option (Pool × List TermChain)
appended head ts none = none
appended head ts (some h) =
    some (h.pool, record { head = head; writer = h.writer; level = h.level } ∷ ts)

abbrev pub kept_term : TermChain → Option (Pool × List TermChain) → Option (Pool × List TermChain)
kept_term t none = none
kept_term t (some (p, ts)) = some (p, t ∷ ts)

-- append_byte on the chain of a term, by its place; a place that there is not leaves all as it is.
abbrev pub append_at : Pool → List TermChain → ℕ → ℕ → Option (Pool × List TermChain)
append_at p [] i value = some (p, [])
append_at p (t ∷ ts) zero value =
    appended t.head ts (append_byte (record { writer = t.writer; level = t.level; pool = p }) value)
append_at p (t ∷ ts) (suc i) value = kept_term t (append_at p ts i value)

abbrev pub begun : List TermChain → Option (ℕ × Handle) → Option (Pool × List TermChain)
begun ts none = none
begun ts (some (head, h)) =
    some (h.pool, record { head = head; writer = h.writer; level = h.level } ∷ ts)

pub data Op : Type 0 where
  start : Op
  append : ℕ → ℕ → Op

abbrev pub step : Pool → List TermChain → Op → Option (Pool × List TermChain)
step p ts start = begun ts (start_chain p)
step p ts (append i value) = append_at p ts i value

abbrev pub run_ops : List Op → Option (Pool × List TermChain) → Option (Pool × List TermChain)
run_ops [] st = st
run_ops (op ∷ ops) none = none
run_ops (op ∷ ops) (some (p, ts)) = run_ops ops (step p ts op)

-- The same on byte sequences.
abbrev pub append_to : List (List ℕ) → ℕ → ℕ → List (List ℕ)
append_to [] i value = []
append_to (bs ∷ bss) zero value = (bs ++ (value ∷ [])) ∷ bss
append_to (bs ∷ bss) (suc i) value = bs ∷ append_to bss i value

abbrev pub spec_step : List (List ℕ) → Op → List (List ℕ)
spec_step bss start = [] ∷ bss
spec_step bss (append i value) = append_to bss i value

abbrev pub run_spec : List Op → List (List ℕ) → List (List ℕ)
run_spec [] bss = bss
run_spec (op ∷ ops) bss = run_spec ops (spec_step bss op)
