-- ===== src/Io/BatchRangeFetcher/Fetch.antt =====
-- BatchRangeFetcher::fetch and get of core/src/io/batch_range_fetcher.cpp.
use snii.Io.BatchRangeFetcher.Step.{sweep_one_lem, Swept}
use snii.Io.BatchRangeFetcher.Segments.{Covers-Grows, InFile, Covers, IsSweep}
use snii.Io.BatchRangeFetcher.{
  start, fetch, no_range, Result, Range, get, ok, no_req, sweep, Sweep, Req,
}
use snii.Common.{
  ℕ, zero, suc, ◌+◌, ◌^◌, ◌≤◌, ◌<◌, ◌≡◌, ◌∙◌, sym, ap, ◌⊎◌, inl, inr, refl, arith, Bool, true,
  false, ◌||◌, List, [], ◌∷◌, map, All, length, get_or, set, take, drop, ◌==◌, ==_iff, Bool-cases,
}

abbrev pub is_in : ℕ → List ℕ → Bool
is_in h [] = false
is_in h (k ∷ order) = (h == k) || is_in h order

abbrev pub offset_of : List Req → ℕ → ℕ
offset_of reqs h = (get_or reqs h no_req).offset

abbrev pub len_of : List Req → ℕ → ℕ
len_of reqs h = (get_or reqs h no_req).len

-- Handles of requests, by offset, none below `low`.
abbrev pub Ascending : List Req → ℕ → List ℕ → Type 0
Ascending reqs low [] = Unit {0}
Ascending reqs low (k ∷ order) =
    (k < length reqs) × (low ≤ offset_of reqs k) × Ascending reqs (offset_of reqs k) order

-- What std::sort makes of the handles 0, 1, ...: all of them, by offset.
pub record IsSorted (reqs : List Req) (order : List ℕ) : Type 0 where
  pub ascending : Ascending reqs 0 order
  pub all : (h : ℕ) → h < length reqs → is_in h order ≡ true

-- The requests keep their ranges.
record SameRanges (reqs reqs' : List Req) : Type 0 where
  same_length : length reqs' ≡ length reqs
  same_offset : (h : ℕ) → offset_of reqs' h ≡ offset_of reqs h
  same_len : (h : ℕ) → len_of reqs' h ≡ len_of reqs h

get_or-set_cases :
    (xs : List Req) (k h : ℕ) (v : Req)
    → k < length xs
    → ((h ≡ k) × (get_or (set xs k v) h no_req ≡ v))
      ⊎ (¬ (h ≡ k) × (get_or (set xs k v) h no_req ≡ get_or xs h no_req))
get_or-set_cases [] k h v lt = absurd (omega arith)
get_or-set_cases (x ∷ xs) zero zero v lt = inl (refl, refl)
get_or-set_cases (x ∷ xs) zero (suc h) v lt = inr (λ e. absurd (omega (arith, e)), refl)
get_or-set_cases (x ∷ xs) (suc k) zero v lt = inr (λ e. absurd (omega (arith, e)), refl)
get_or-set_cases (x ∷ xs) (suc k) (suc h) v lt = elim (get_or-set_cases xs k h v (omega arith)) [
  | inl hit ↦ inl (ap suc hit.0, hit.1)
  | inr miss ↦ inr (λ e. miss.0 (omega (arith, e)), miss.1)
]

length-set : (xs : List Req) (k : ℕ) (v : Req) → length (set xs k v) ≡ length xs
length-set [] k v = refl
length-set (x ∷ xs) zero v = refl
length-set (x ∷ xs) (suc k) v = ap suc (length-set xs k v)

SameRanges-set :
    (reqs reqs' : List Req) (k : ℕ) (v : Req)
    → SameRanges reqs reqs'
    → k < length reqs
    → v.offset ≡ offset_of reqs' k
    → v.len ≡ len_of reqs' k
    → SameRanges reqs (set reqs' k v)
SameRanges-set reqs reqs' k v same lt eo el = record {
  same_length = length-set reqs' k v ∙ same.same_length;
  same_offset = λ h. elim (get_or-set_cases reqs' k h v (omega (arith, same.same_length))) [
    | inl hit ↦
        ap (λ (x : Req). x.offset) hit.1 ∙ eo ∙ same.same_offset k ∙ ap (offset_of reqs) (sym hit.0)
    | inr miss ↦ ap (λ (x : Req). x.offset) miss.1 ∙ same.same_offset h
  ];
  same_len = λ h. elim (get_or-set_cases reqs' k h v (omega (arith, same.same_length))) [
    | inl hit ↦ ap (λ (x : Req). x.len) hit.1 ∙ el ∙ same.same_len k ∙ ap (len_of reqs) (sym hit.0)
    | inr miss ↦ ap (λ (x : Req). x.len) miss.1 ∙ same.same_len h
  ];
}

abbrev Done : Sweep → ℕ → Type 0
Done s h = Covers s.segs (get_or s.reqs h no_req)

module _ (file gap : ℕ) (small : file < 2 ^ 64) (reqs : List Req)
    (in_file : (h : ℕ) → offset_of reqs h + len_of reqs h ≤ file) where
  -- The rounds of the sweep, in order: they do not fail, and each request whose turn came is covered.
  record Sweeps (order : List ℕ) (s s' : Sweep) : Type 0 where
    sweep : IsSweep file s'
    same : SameRanges reqs s'.reqs
    done : (h : ℕ) → Done s h → Done s' h
    turn : (h : ℕ) → is_in h order ≡ true → Done s' h

  Done-step :
      (k : ℕ) (s s' : Sweep)
      → Swept file k (get_or s.reqs k no_req) s s'
      → k < length s.reqs
      → (h : ℕ) → Done s h
      → Done s' h
  Done-step k s s' w lt h d = rw w.reqs (elim (get_or-set_cases s.reqs k h w.req lt) [
    | inl hit ↦ rw (hit.1) w.covers
    | inr miss ↦ rw (miss.1) (Covers-Grows s.segs s'.segs (get_or s.reqs h no_req) d w.grows)
  ])

  turn_step :
      (k : ℕ) (s s' : Sweep)
      → Swept file k (get_or s.reqs k no_req) s s'
      → k < length s.reqs
      → Done s' k
  turn_step k s s' w lt = rw w.reqs (elim (get_or-set_cases s.reqs k k w.req lt) [
    | inl hit ↦ rw (hit.1) w.covers
    | inr miss ↦ absurd (miss.0 refl)
  ])

  sweep_lem :
      (order : List ℕ) (low : ℕ) (s : Sweep)
      → IsSweep file s
      → SameRanges reqs s.reqs
      → Ascending reqs low order
      → s.cur_start ≤ low
      → (s' : Sweep) × (sweep gap order s ≡ ok s') × Sweeps order s s'
  unfolding sweep
  sweep_lem [] low s v same asc below = (
    s,
    refl,
    record { sweep = v; same = same; done = λ h d. d; turn = λ h e. absurd (ground (arith, e)) },
  )
  sweep_lem (k ∷ order) low s v same (lt, start, asc) below =
      let (s1, e, w) =
        sweep_one_lem file gap k s small v
          (omega (arith, in_file k, same.same_offset k, same.same_len k))
          (omega (arith, below, start, same.same_offset k)) in
      let in_range : k < length s.reqs = omega (arith, lt, same.same_length) in
      let same1 : SameRanges reqs s1.reqs =
        rw w.reqs (SameRanges-set reqs s.reqs k w.req same lt w.same_offset w.same_len) in
      let (s', e', r) =
        sweep_lem order (offset_of reqs k) s1 w.sweep same1 asc
          (omega (arith, w.low, same.same_offset k)) in
      (
        s',
        rw e e',
        record {
          sweep = r.sweep;
          same = r.same;
          done = λ h d. r.done h (Done-step k s s1 w in_range h d);
          turn = λ h e. elim (Bool-cases (h == k)) [
            | inl hit ↦ r.done h (rw ((==_iff _ _).0 hit) (turn_step k s s1 w in_range))
            | inr miss ↦ r.turn h (ground (arith, e, miss))
          ];
        },
      )

-- What FileReader::read_batch does on a file of given bytes: ranges within the file are returned whole,
-- in order.
abbrev pub bytes_in : List ℕ → Range → List ℕ
bytes_in file seg = take seg.len (drop seg.offset file)

pub record ReadsBatch (read_batch : List Range → Result (List (List ℕ))) (file : List ℕ)
    : Type 0 where
  pub within :
      (segs : List Range)
      → All (InFile (length file)) segs
      → read_batch segs ≡ ok (map (bytes_in file) segs)

get_or-map :
    (file : List ℕ) (segs : List Range) (i : ℕ)
    → i < length segs
    → get_or (map (bytes_in file) segs) i [] ≡ bytes_in file (get_or segs i no_range)
get_or-map file [] i h = absurd (omega arith)
get_or-map file (x ∷ segs) zero h = refl
get_or-map file (x ∷ segs) (suc i) h = get_or-map file segs i (omega arith)

take-drop-take :
    (xs : List ℕ) (a n l : ℕ) → a + n ≤ l → take n (drop a (take l xs)) ≡ take n (drop a xs)
take-drop-take xs a zero l h = refl
take-drop-take xs zero (suc n) zero h = absurd (omega arith)
take-drop-take [] zero (suc n) (suc l) h = refl
take-drop-take (x ∷ xs) zero (suc n) (suc l) h =
    ap (λ t. x ∷ t) (take-drop-take xs zero n l (omega arith))
take-drop-take xs (suc a) (suc n) zero h = absurd (omega arith)
take-drop-take [] (suc a) (suc n) (suc l) h = refl
take-drop-take (x ∷ xs) (suc a) (suc n) (suc l) h = take-drop-take xs a (suc n) l (omega arith)

drop-nil : (n : ℕ) → drop {A = ℕ} n [] ≡ []
drop-nil zero = refl
drop-nil (suc n) = refl

drop-drop : (xs : List ℕ) (o a : ℕ) → drop a (drop o xs) ≡ drop (o + a) xs
drop-drop xs zero a = ap (λ (k : ℕ). drop k xs) (omega arith)
drop-drop [] (suc o) a = drop-nil a ∙ sym (drop-nil (suc o + a))
drop-drop (x ∷ xs) (suc o) a = rw sum (drop-drop xs o a)
  where
    sum : suc o + a ≡ suc (o + a)
    sum = omega arith

covered_bytes :
    (file : List ℕ) (segs : List Range) (r : Req)
    → Covers segs r
    → take r.len_size (drop r.sub_offset (get_or (map (bytes_in file) segs) r.phys_idx []))
      ≡ take r.len (drop r.offset file)
covered_bytes file segs r v =
    let seg = get_or segs r.phys_idx no_range in
    rw (v.size, get_or-map file segs r.phys_idx v.placed)
      (take-drop-take (drop seg.offset file) r.sub_offset r.len seg.len v.end
        ∙ ap (take r.len) (drop-drop file seg.offset r.sub_offset)
        ∙ ap (λ (o : ℕ). take r.len (drop o file)) v.start)

same_range :
    (file : List ℕ) {l k o i : ℕ} → l ≡ k → o ≡ i → take l (drop o file) ≡ take k (drop i file)
same_range file e f = rw (e, f) refl

module _ (sort_by_offset : List Req → List ℕ)
    (read_batch : List Range → Result (List (List ℕ))) where
  abbrev pub Fetches : ℕ → List ℕ → List Req → ℕ → Type 0
  Fetches gap file reqs h =
      (reqs' : List Req) × (phys : List (List ℕ)) × (fetch sort_by_offset read_batch gap reqs
        ≡ ok (reqs', phys))
      × (get reqs' phys h ≡ take (len_of reqs h) (drop (offset_of reqs h) file))

  -- On a file of less than 2 ^ 64 bytes, with every request within it, fetch succeeds whatever the gap,
  -- and then get returns for each handle the bytes of the file from the request's offset on, as many as
  -- the request asked for; if the sort gives all handles by offset and read_batch returns ranges of the
  -- file whole.
  pub fetch_lem :
      (gap : ℕ) (file : List ℕ) (reqs : List Req) (h : ℕ)
      → h < length reqs
      → length file < 2 ^ 64
      → ((i : ℕ) → offset_of reqs i + len_of reqs i ≤ length file)
      → IsSorted reqs (sort_by_offset reqs)
      → ReadsBatch read_batch file
      → Fetches gap file reqs h
  unfolding fetch get
  fetch_lem gap file [] h lt small in_file sorted reads = absurd (omega arith)
  fetch_lem gap file (r ∷ reqs) h lt small in_file sorted reads =
      let (s, e, w) =
        sweep_lem (length file) gap small (r ∷ reqs) in_file (sort_by_offset (r ∷ reqs)) 0
          (start (r ∷ reqs)) empty same sorted.ascending (omega arith) in
      (
        s.reqs,
        map (bytes_in file) s.segs,
        rw (e, reads.within s.segs w.sweep.inside) refl,
        covered_bytes file s.segs (get_or s.reqs h no_req) (w.turn h (sorted.all h lt))
            ∙ same_range file (w.same.same_len h) (w.same.same_offset h),
      )
    where
      empty : IsSweep (length file) (start (r ∷ reqs))
      empty = record { last = inl refl; order = omega arith; fits = omega arith; inside = tt }

      same : SameRanges (r ∷ reqs) (r ∷ reqs)
      same = record { same_length = refl; same_offset = λ h. refl; same_len = λ h. refl }
