-- ===== src/Writer/Tests.antt =====
-- Runs of core/src/writer at concrete inputs.
use snii.Writer.PostingPool.Trace.{run_ops-reset, read_all}
use snii.Writer.PostingPool.Ops.{run_spec, append, start, run_ops, Op, TermChain}
use snii.Writer.PostingPool.{
  next, has_next, next_level, slice_size, read_ptr, write_ptr, store, put_value, append_byte,
  fresh_block, take_run, add_block, cursor, need_block, alloc_run, alloc_slice, start_chain, Pool,
  reset,
}
use snii.Writer.PostingPool.Drain.{drain}
use snii.Common.{ℕ, ◌≡◌, refl, arith, List, [], ◌∷◌, Option, none, some}

abbrev used : Pool
used = record { mem = λ o. 3; block_count = 1; next_offset = 100; payload_bytes = 40 }

-- Two chains, the first long enough for a second slice.
abbrev calls : List Op
calls =
    start
    ∷ append 0 1
    ∷ append 0 2
    ∷ start
    ∷ append 0 50
    ∷ append 1 3
    ∷ append 1 4
    ∷ append 1 5
    ∷ append 1 6
    ∷ []

run_ops-reset_example :
    (p : Pool) × (ts : List TermChain) × (run_ops calls (some (reset used, [])) ≡ some (p, ts))
    × (read_all p ts (run_spec calls []) ≡ run_spec calls [])
run_ops-reset_example = run_ops-reset calls used (omega arith)

abbrev over_budget : Option (Pool × List TermChain) → List ℕ
over_budget none = []
over_budget (some (p, [])) = []
over_budget (some (p, t ∷ ts)) = drain 4 p.mem (cursor t.head 3)

-- With a budget above the length, the cursor goes on behind the last byte to the end of the slice.
phantom_bytes :
    over_budget (run_ops (start ∷ append 0 7 ∷ []) (some (reset used, []))) ≡ 7 ∷ 0 ∷ 0 ∷ []
unfolding reset start_chain alloc_slice alloc_run need_block add_block take_run fresh_block
    append_byte put_value store write_ptr read_ptr slice_size next_level cursor has_next next
phantom_bytes = refl
