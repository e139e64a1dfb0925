-- ===== src/Writer/PostingPool/Append.antt =====
-- CompactPostingPool::append_byte of core/src/writer/compact_posting_pool.cpp on one slice chain.
use snii.Writer.PostingPool.Memory.{
  read_ptr-write_ptr, store_same, run-suc, store_other, run-Agree, read_ptr-Agree, run,
  write_ptr_other,
}
use snii.Writer.PostingPool.Chain.{Holds-low, Owned, Holds}
use snii.Writer.PostingPool.{next_level, read_ptr, store, write_ptr, slice_size, SliceWriter, Bytes}
use snii.Common.{
  ℕ, suc, ◌+◌, ◌-◌, ◌^◌, ◌≤◌, ◌<◌, ◌≡◌, ◌∙◌, sym, ap, ◌⊎◌, inl, inr, refl, arith, List, [], ◌∷◌,
  ◌++◌, append_assoc, append-nil,
}

-- A byte stored at the write cursor is the chain's next byte.
pub Holds-store :
    (mem : Bytes) (w : SliceWriter) (last level first : ℕ) (nexts bytes : List ℕ) (value : ℕ)
    → Holds mem w last level first nexts bytes
    → w.cur < w.slice_end
    → Holds
        (store mem w.cur value)
        (record w { cur = w.cur + 1 })
        last
        level
        first
        nexts
        (bytes ++ (value ∷ []))
Holds-store mem w last level first [] bytes value h room = record {
  last_level = h.last_level;
  end = h.end;
  low = omega (arith, h.low);
  high = omega arith;
  payload =
      rw
        (
          h.payload,
          length_suc,
          run-suc (store mem w.cur value) first (w.cur - first),
          at_cur,
          store_same mem w.cur value,
          before,
        )
        refl;
  zero_ptr =
      read_ptr-Agree mem (store mem w.cur value) w.slice_end
        (λ o r. store_other mem w.cur value o (λ e. absurd (omega (arith, r, e, room))))
      ∙ h.zero_ptr;
}
  where
    length_suc : w.cur + 1 - first ≡ suc (w.cur - first)
    length_suc = omega (arith, h.low)

    at_cur : first + (w.cur - first) ≡ w.cur
    at_cur = omega (arith, h.low)

    before : run (store mem w.cur value) first (w.cur - first) ≡ run mem first (w.cur - first)
    before =
        run-Agree mem (store mem w.cur value) first (w.cur - first)
          (λ o r. store_other mem w.cur value o (λ e. absurd (omega (arith, r, e, h.low))))
Holds-store mem w last level first (next ∷ nexts) bytes value (rest, l, h) room = (
  rest ++ (value ∷ []),
  record {
    above = l.above;
    ptr =
        read_ptr-Agree mem (store mem w.cur value) (first + slice_size level)
          (λ o r. other o (omega (arith, r)))
        ∙ l.ptr;
    payload =
        rw
          (
            l.payload,
            run-Agree mem (store mem w.cur value) first (slice_size level)
                (λ o r. other o (omega (arith, r))),
          )
          (append_assoc (run mem first (slice_size level)) rest (value ∷ []));
  },
  Holds-store mem w last (next_level level) next nexts rest value h room,
)
  where
    other : (o : ℕ) → o < first + slice_size level + 4 → store mem w.cur value o ≡ mem o
    other o lt = store_other mem w.cur value o (λ e.
        absurd (
          omega (arith, e, lt, l.above, Holds-low w last mem (next_level level) next nexts rest h)))

-- The chain with one slice more, of the next level, that lies above it and is empty.
module _ (mem : Bytes) (w : SliceWriter) (last head : ℕ) (above : w.slice_end + 4 ≤ head)
    (fits : head < 2 ^ 32) where
  abbrev linked : Bytes
  linked = write_ptr mem w.slice_end head

  abbrev new_writer : SliceWriter
  new_writer = record { cur = head; slice_end = head + slice_size (next_level last) }

  linked_other : (o : ℕ) → (o < w.slice_end) ⊎ (w.slice_end + 4 ≤ o) → linked o ≡ mem o
  linked_other o out = write_ptr_other mem w.slice_end head o out

  pub Holds-grow :
      (level first : ℕ) (nexts bytes : List ℕ)
      → Holds mem w last level first nexts bytes
      → w.cur ≡ w.slice_end
      → read_ptr mem (head + slice_size (next_level last)) ≡ 0
      → Holds linked new_writer (next_level last) level first (nexts ++ (head ∷ [])) bytes
  Holds-grow level first [] bytes h full zero_ptr = (
    [],
    record {
      above = omega (arith, above, h.end);
      ptr = rw (← h.end) (read_ptr-write_ptr mem w.slice_end head fits);
      payload =
          rw (h.payload, whole, old_bytes) (sym (append-nil (run mem first (slice_size level))));
    },
    record {
      last_level = ap next_level h.last_level;
      end = ap (λ (l : ℕ). head + slice_size (next_level l)) h.last_level;
      low = omega arith;
      high = omega arith;
      payload = rw none_yet refl;
      zero_ptr =
          read_ptr-Agree mem linked (head + slice_size (next_level last))
            (λ o r. linked_other o (inr (omega (arith, above, r))))
          ∙ zero_ptr;
    },
  )
    where
      whole : w.cur - first ≡ slice_size level
      whole = omega (arith, full, h.end)

      none_yet : head - head ≡ 0
      none_yet = omega arith

      old_bytes : run linked first (slice_size level) ≡ run mem first (slice_size level)
      old_bytes =
          run-Agree mem linked first (slice_size level)
            (λ o r. linked_other o (inl (omega (arith, r, h.end))))
  Holds-grow level first (next ∷ nexts) bytes (rest, l, h) full zero_ptr = (
    rest,
    record {
      above = l.above;
      ptr =
          read_ptr-Agree mem linked (first + slice_size level) (λ o r. linked_other o (
            inl (
              omega (
                arith,
                r,
                l.above,
                full,
                Holds-low w last mem (next_level level) next nexts rest h,
              ))))
          ∙ l.ptr;
      payload =
          rw
            (run-Agree mem linked first (slice_size level) (λ o r. linked_other o (
              inl (
                omega (
                  arith,
                  r,
                  l.above,
                  full,
                  Holds-low w last mem (next_level level) next nexts rest h,
                )))))
            (l.payload);
    },
    Holds-grow (next_level level) next nexts rest h full zero_ptr,
  )

  -- What the longer chain owns.
  pub Owned-grow :
      (level first : ℕ) (nexts bytes : List ℕ)
      → Holds mem w last level first nexts bytes
      → (o : ℕ) → Owned level first (nexts ++ (head ∷ [])) o
      → Owned level first nexts o ⊎ (head ≤ o)
  Owned-grow level first [] bytes h o (inl own) = inl own
  Owned-grow level first [] bytes h o (inr own) = inr (own.0)
  Owned-grow level first (next ∷ nexts) bytes (rest, l, h) o (inl own) = inl (inl own)
  Owned-grow level first (next ∷ nexts) bytes (rest, l, h) o (inr own) =
      elim (Owned-grow (next_level level) next nexts rest h o own) [
        | inl old ↦ inl (inr old)
        | inr new ↦ inr new
      ]
