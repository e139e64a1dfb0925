-- ===== src/Io/BatchRangeFetcher/Segments.antt =====
-- Segments of the sweep of core/src/io/batch_range_fetcher.cpp: what covers a request, and how they grow.
use snii.Io.BatchRangeFetcher.{set_back_len, ok, no_range, Req, Range, sub_64, Sweep, checked_size}
use snii.Common.{
  get_or-append, All, ℕ, zero, suc, ◌+◌, ◌-◌, ◌^◌, ◌≤◌, ◌<◌, ◌≡◌, ap, ◌⊎◌, refl, arith, List, [],
  ◌∷◌, ◌++◌, length, length-append, get_or, set,
}

-- A request lies within its segment.
pub record Covers (segs : List Range) (r : Req) : Type 0 where
  pub placed : r.phys_idx < length segs
  pub start : (get_or segs r.phys_idx no_range).offset + r.sub_offset ≡ r.offset
  pub end : r.sub_offset + r.len ≤ (get_or segs r.phys_idx no_range).len
  pub size : r.len_size ≡ r.len

-- Each segment is still there, no shorter.
pub record GrowsAt (segs segs' : List Range) (i : ℕ) : Type 0 where
  pub there : i < length segs'
  pub offset : (get_or segs' i no_range).offset ≡ (get_or segs i no_range).offset
  pub len : (get_or segs i no_range).len ≤ (get_or segs' i no_range).len

abbrev pub Grows : List Range → List Range → Type 0
Grows segs segs' = (i : ℕ) → i < length segs → GrowsAt segs segs' i

pub Covers-Grows :
    (segs segs' : List Range) (r : Req) → Covers segs r → Grows segs segs' → Covers segs' r
Covers-Grows segs segs' r v g =
    let at = g r.phys_idx v.placed in
    record {
      placed = at.there;
      start = omega (arith, at.offset, v.start);
      end = omega (arith, at.len, v.end);
      size = v.size;
    }

abbrev pub InFile : ℕ → Range → Type 0
InFile file seg = seg.offset + seg.len ≤ file

abbrev pub span : ℕ → ℕ → Range
span start end = record { offset = start; len = end - start }

-- What holds between rounds: the last segment goes from cur_start to cur_end, and each is in the file.
pub record IsSweep (file : ℕ) (s : Sweep) : Type 0 where
  pub last :
      (s.segs ≡ []) ⊎ ((front : List Range) × (s.segs ≡ front ++ (span s.cur_start s.cur_end ∷ [])))
  pub order : s.cur_start ≤ s.cur_end
  pub fits : s.cur_end ≤ file
  pub inside : All (InFile file) s.segs

pub All-front :
    (file : ℕ) (front : List Range) (seg : Range)
    → All (InFile file) (front ++ (seg ∷ []))
    → All (InFile file) front
All-front file [] seg h = tt
All-front file (x ∷ front) seg h = (h.0, All-front file front seg (h.1))

pub All-snoc :
    (file : ℕ) (front : List Range) (seg : Range)
    → All (InFile file) front
    → InFile file seg
    → All (InFile file) (front ++ (seg ∷ []))
All-snoc file [] seg h last = (last, tt)
All-snoc file (x ∷ front) seg h last = (h.0, All-snoc file front seg (h.1) last)

pub Grows-snoc : (segs : List Range) (seg : Range) → Grows segs (segs ++ (seg ∷ []))
Grows-snoc [] seg i h = absurd (omega arith)
Grows-snoc (x ∷ segs) seg zero h = record { there = omega arith; offset = refl; len = omega arith }
Grows-snoc (x ∷ segs) seg (suc i) h =
    let g = Grows-snoc segs seg i (omega arith) in
    record { there = omega (arith, g.there); offset = g.offset; len = g.len }

pub Grows-last :
    (front : List Range) (a b : Range)
    → b.offset ≡ a.offset
    → a.len ≤ b.len
    → Grows (front ++ (a ∷ [])) (front ++ (b ∷ []))
Grows-last [] a b same longer zero h = record { there = omega arith; offset = same; len = longer }
Grows-last [] a b same longer (suc i) h = absurd (omega arith)
Grows-last (x ∷ front) a b same longer zero h = record {
  there = omega arith;
  offset = refl;
  len = omega arith;
}
Grows-last (x ∷ front) a b same longer (suc i) h =
    let g = Grows-last front a b same longer i (omega arith) in
    record { there = omega (arith, g.there); offset = g.offset; len = g.len }

pub set_back_len-snoc :
    (front : List Range) (a : Range) (len : ℕ)
    → set_back_len (front ++ (a ∷ [])) len ≡ front ++ (record a { len = len } ∷ [])
set_back_len-snoc front a len =
    rw (last_index, get_or-append front [] a no_range) (set_last front a (record a { len = len }))
  where
    last_index : length (front ++ (a ∷ [])) - 1 ≡ length front
    last_index = omega (arith, length-append front (a ∷ []))

    set_last :
        (front : List Range) (a b : Range)
        → set (front ++ (a ∷ [])) (length front) b ≡ front ++ (b ∷ [])
    set_last [] a b = refl
    set_last (x ∷ front) a b = ap (λ xs. x ∷ xs) (set_last front a b)

pub checked_size_lem : (n : ℕ) → n < 2 ^ 64 → checked_size n ≡ ok n
unfolding checked_size
checked_size_lem n h = ground arith

pub sub_64_lem : (a b : ℕ) → b ≤ a → a < 2 ^ 64 → sub_64 a b ≡ a - b
sub_64_lem a b le lt = omega arith
