-- ===== src/Writer/PostingPool/Drain.antt =====
-- CompactPostingPool::Cursor of core/src/writer/compact_posting_pool.cpp over one chain.
use snii.Writer.PostingPool.Refine.{IsChain, Chain}
use snii.Writer.PostingPool.Alloc.{IsPool}
use snii.Common.{
  ==_self, drop, ltb→lt, get_or, ltb, ℕ, zero, suc, ◌+◌, ◌-◌, ◌%◌, ◌^◌, ◌≤◌, ◌<◌, ◌≡◌, sym, ap, inl,
  inr, refl, arith, true, false, List, [], ◌∷◌, ◌++◌, length, ◌==◌, Bool-cases, if◌then◌else◌,
}
use snii.Writer.PostingPool.{
  Pool, cursor, next_level, slice_size, next, has_next, SliceWriter, read_ptr, Cursor, Bytes,
}
use snii.Writer.PostingPool.Slices.{next_level-lt, slice_size-range}
use snii.Writer.PostingPool.Chain.{Holds-high, Holds-low, Holds}
use snii.Writer.PostingPool.Memory.{run}

-- `while (c.has_next()) out.push_back(c.next());`, at most `rounds` times
abbrev pub drain : ℕ → Bytes → Cursor → List ℕ
drain zero mem c = []
drain (suc rounds) mem c =
    let rest = drain rounds mem ((next mem c).1) in
    if has_next mem c then (next mem c).0 ∷ rest else []

-- The bytes that are still ahead of a cursor in the slice that ends at `end`.
record TailAhead (mem : Bytes) (w : SliceWriter) (end cur : ℕ) (bytes : List ℕ) : Type 0 where
  is_end : end ≡ w.slice_end
  low : cur ≤ w.cur
  high : w.cur ≤ w.slice_end
  payload : bytes ≡ run mem cur (w.cur - cur)

record LinkAhead (mem : Bytes) (end cur next : ℕ) (bytes rest : List ℕ) : Type 0 where
  above : end + 4 ≤ next
  low : cur ≤ end
  ptr : read_ptr mem end ≡ next
  payload : bytes ≡ run mem cur (end - cur) ++ rest

run-cons :
    (mem : Bytes) (off n byte : ℕ) (bytes : List ℕ)
    → run mem off n ≡ byte ∷ bytes
    → (1 ≤ n) × (mem off ≡ byte) × (bytes ≡ run mem (off + 1) (n - 1))
run-cons mem off zero byte bytes e = absurd (omega (arith, ap length e))
run-cons mem off (suc n) byte bytes e =
    rw less (omega arith, ap (λ (xs : List ℕ). get_or xs 0 0) e, sym (ap (drop 1) e))
  where
    less : suc n - 1 ≡ n
    less = omega arith

run-cons_append :
    (mem : Bytes) (off n byte : ℕ) (rest bytes : List ℕ)
    → 1 ≤ n
    → run mem off n ++ rest ≡ byte ∷ bytes
    → (mem off ≡ byte) × (bytes ≡ run mem (off + 1) (n - 1) ++ rest)
run-cons_append mem off zero byte rest bytes h e = absurd (omega arith)
run-cons_append mem off (suc n) byte rest bytes h e =
    rw less (ap (λ (xs : List ℕ). get_or xs 0 0) e, sym (ap (drop 1) e))
  where
    less : suc n - 1 ≡ n
    less = omega arith

module _ (mem : Bytes) (w : SliceWriter) (last : ℕ) where
  abbrev Ahead : ℕ → ℕ → ℕ → List ℕ → List ℕ → Type 0
  Ahead level end cur [] bytes = TailAhead mem w end cur bytes
  Ahead level end cur (next_head ∷ nexts) bytes =
      (rest : List ℕ) × LinkAhead mem end cur next_head bytes rest
      × Holds mem w last (next_level level) next_head nexts rest

  -- At the start of a slice everything is ahead.
  Holds-Ahead :
      (level first : ℕ) (nexts bytes : List ℕ)
      → Holds mem w last level first nexts bytes
      → Ahead level (first + slice_size level) first nexts bytes
  Holds-Ahead level first [] bytes h = record {
    is_end = sym h.end;
    low = h.low;
    high = h.high;
    payload = h.payload;
  }
  Holds-Ahead level first (next_head ∷ nexts) bytes (rest, l, h) = (
    rest,
    record { above = l.above; low = omega arith; ptr = l.ptr; payload = rw whole (l.payload) },
    h,
  )
    where
      whole : first + slice_size level - first ≡ slice_size level
      whole = omega arith

  abbrev at_cursor : ℕ → ℕ → ℕ → ℕ → Cursor
  at_cursor level end cur budget = record {
    cur = cur;
    slice_end = end;
    level = level;
    budget = budget;
  }

  -- One call of next, where a byte is ahead.
  record Yields (c : Cursor) (byte budget : ℕ) (bytes : List ℕ) : Type 0 where
    level : ℕ
    end : ℕ
    cur : ℕ
    nexts : List ℕ
    has : has_next mem c ≡ true
    step : next mem c ≡ (byte, at_cursor level end cur budget)
    ahead : Ahead level end cur nexts bytes

  -- A byte taken within a slice.
  Ahead-here :
      (level end cur : ℕ) (nexts bytes : List ℕ) (byte : ℕ)
      → Ahead level end cur nexts (byte ∷ bytes)
      → cur < end
      → (mem cur ≡ byte) × Ahead level end (cur + 1) nexts bytes
  Ahead-here level end cur [] bytes byte a lt =
      let r = run-cons mem cur (w.cur - cur) byte bytes (sym a.payload) in
      (
        r.1,
        record {
          is_end = a.is_end;
          low = omega (arith, r.0);
          high = a.high;
          payload = rw (fewer (r.0)) (r.2);
        },
      )
    where
      fewer : 1 ≤ w.cur - cur → w.cur - (cur + 1) ≡ w.cur - cur - 1
      fewer h = omega arith
  Ahead-here level end cur (next_head ∷ nexts) bytes byte (rest, l, h) lt =
      let r = run-cons_append mem cur (end - cur) byte rest bytes (omega arith) (sym l.payload) in
      (
        r.0,
        (
          rest,
          record { above = l.above; low = omega arith; ptr = l.ptr; payload = rw fewer (r.1) },
          h,
        ),
      )
    where
      fewer : end - (cur + 1) ≡ end - cur - 1
      fewer = omega arith

  -- A slice is left within the offsets.
  Ahead-end :
      (level end cur : ℕ) (nexts bytes : List ℕ)
      → Ahead level end cur nexts bytes
      → end ≤ w.slice_end
  Ahead-end level end cur [] bytes a = omega (arith, a.is_end)
  Ahead-end level end cur (next_head ∷ nexts) bytes (rest, l, h) = omega (
    arith,
    l.above,
    Holds-low w last mem (next_level level) next_head nexts rest h,
    Holds-high w last mem (next_level level) next_head nexts rest h,
  )

  positive : (budget : ℕ) → (suc budget == 0) ≡ false
  positive budget = ground arith

  one_less : (budget : ℕ) → suc budget - 1 ≡ budget
  one_less budget = omega arith

  spent : (level end cur : ℕ) → has_next mem (at_cursor level end cur 0) ≡ false
  unfolding has_next
  spent level end cur = refl

  module _ (fits : w.slice_end < 2 ^ 32) where
    Yields-here :
        (level end cur budget : ℕ) (nexts bytes : List ℕ) (byte : ℕ)
        → Ahead level end cur nexts (byte ∷ bytes)
        → cur < end
        → Yields (at_cursor level end cur (suc budget)) byte budget bytes
    unfolding has_next next
    Yields-here level end cur budget nexts bytes byte a lt =
        let r = Ahead-here level end cur nexts bytes byte a lt in
        record {
          level = level;
          end = end;
          cur = cur + 1;
          nexts = nexts;
          has = rw (positive budget, apart) refl;
          step = rw (positive budget, apart, r.0, small, one_less budget) refl;
          ahead = r.1;
        }
      where
        apart : (cur == end) ≡ false
        apart = ground (arith, lt)

        small : (cur + 1) % 2 ^ 32 ≡ cur + 1
        small = omega (arith, lt, Ahead-end level end cur nexts (byte ∷ bytes) a)

    -- The cursor at the end of a slice goes on in the next one.
    Yields-follow :
        (level end budget next_head : ℕ) (nexts bytes : List ℕ) (byte : ℕ)
        → read_ptr mem end ≡ next_head
        → 1 ≤ next_head
        → Holds mem w last (next_level level) next_head nexts (byte ∷ bytes)
        → Yields (at_cursor level end end (suc budget)) byte budget bytes
    unfolding has_next next
    Yields-follow level end budget next_head nexts bytes byte ptr pos h =
        let r =
          Ahead-here (next_level level) (next_head + slice_size (next_level level)) next_head nexts
            bytes byte (Holds-Ahead (next_level level) next_head nexts (byte ∷ bytes) h)
            (omega (arith, slice_size-range (next_level level) (next_level-lt level))) in
        record {
          level = next_level level;
          end = next_head + slice_size (next_level level);
          cur = next_head + 1;
          nexts = nexts;
          has = rw (positive budget, ==_self end, ptr, some_next) refl;
          step =
              rw
                (
                  positive budget,
                  ==_self end,
                  ptr,
                  some_next,
                  r.0,
                  small,
                  end_small,
                  one_less budget,
                )
                refl;
          ahead = r.1;
        }
      where
        some_next : (next_head == 0) ≡ false
        some_next = ground (arith, pos)

        in_tail : next_head + slice_size (next_level level) ≤ w.slice_end
        in_tail =
            Ahead-end (next_level level) (next_head + slice_size (next_level level)) next_head nexts
              (byte ∷ bytes) (Holds-Ahead (next_level level) next_head nexts (byte ∷ bytes) h)

        small : (next_head + 1) % 2 ^ 32 ≡ next_head + 1
        small =
            omega (arith, in_tail, fits, slice_size-range (next_level level) (next_level-lt level))

        end_small :
            (next_head + slice_size (next_level level)) % 2 ^ 32
            ≡ next_head + slice_size (next_level level)
        end_small = omega (arith, in_tail, fits)

    yields :
        (level end cur budget : ℕ) (nexts bytes : List ℕ) (byte : ℕ)
        → Ahead level end cur nexts (byte ∷ bytes)
        → Yields (at_cursor level end cur (suc budget)) byte budget bytes
    yields level end cur budget [] bytes byte a = Yields-here level end cur budget [] bytes byte a (
        omega
          (arith, (run-cons mem cur (w.cur - cur) byte bytes (sym a.payload)).0, a.high, a.is_end))
    yields level end cur budget (next_head ∷ nexts) bytes byte (rest, l, h) =
        elim (Bool-cases (ltb cur end)) [
          | inl inside ↦
              Yields-here level end cur budget (next_head ∷ nexts) bytes byte (rest, l, h)
                (ltb→lt _ _ inside)
          | inr at_end ↦ rw (same (ground (arith, at_end))) (
              Yields-follow level end budget next_head nexts bytes byte l.ptr
                (omega (arith, l.above)) (rw (rest_is (ground (arith, at_end))) at h))
        ]
      where
        same : end ≤ cur → cur ≡ end
        same ge = omega (arith, l.low)

        rest_is : end ≤ cur → rest ≡ byte ∷ bytes
        rest_is ge = let e = l.payload in sym (rw nothing at e)
          where
            nothing : end - cur ≡ 0
            nothing = omega arith

    drain-Ahead :
        (bytes : List ℕ) (level end cur : ℕ) (nexts : List ℕ)
        → Ahead level end cur nexts bytes
        → drain (suc (length bytes)) mem (at_cursor level end cur (length bytes)) ≡ bytes
    drain-Ahead [] level end cur nexts a = rw (spent level end cur) refl
    drain-Ahead (byte ∷ bytes) level end cur nexts a =
        let y = yields level end cur (length bytes) nexts bytes byte a in
        rw (y.has, y.step, drain-Ahead bytes y.level y.end y.cur y.nexts y.ahead) refl

-- A cursor at the head of a chain, with the number of the chain's bytes as its budget, yields the bytes
-- of the chain in the order in which they were appended, and then no more.
pub drain-cursor :
    (p : Pool) (c : Chain)
    → IsPool p
    → IsChain p c
    → drain (suc (length c.bytes)) p.mem (cursor c.head (length c.bytes)) ≡ c.bytes
unfolding cursor
drain-cursor p c pool v = rw end_small (
    drain-Ahead p.mem c.writer c.level (omega (arith, v.room, pool.low)) c.bytes 0
      (c.head + slice_size 0) c.head c.nexts ahead)
  where
    ahead : Ahead p.mem c.writer c.level 0 (c.head + slice_size 0) c.head c.nexts c.bytes
    ahead = Holds-Ahead p.mem c.writer c.level 0 c.head c.nexts c.bytes v.holds

    end_small : (c.head + slice_size 0) % 2 ^ 32 ≡ c.head + slice_size 0
    end_small = omega (
      arith,
      Ahead-end p.mem c.writer c.level 0 (c.head + slice_size 0) c.head c.nexts c.bytes ahead,
      v.room,
      pool.low,
    )
