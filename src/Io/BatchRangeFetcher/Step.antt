-- ===== src/Io/BatchRangeFetcher/Step.antt =====
-- One round of the sweep of core/src/io/batch_range_fetcher.cpp.
use snii.Io.BatchRangeFetcher.Segments.{
  All-front, InFile, Grows-last, checked_size_lem, Grows-snoc, IsSweep, Covers, set_back_len-snoc,
  sub_64_lem, Grows, span, All-snoc,
}
use snii.Io.BatchRangeFetcher.{
  max_64, no_req, checked_end, is_empty, sweep_one, place, join, set_back_len, ok, no_range, Req,
  Range, Sweep,
}
use snii.Common.{
  ◌||◌, ◌&&◌, get_or-append, All, max, ℕ, ◌+◌, ◌-◌, ◌^◌, ◌≤◌, ◌<◌, ◌≡◌, ap, inl, inr, refl, arith,
  false, List, [], ◌∷◌, ◌++◌, length, length-append, get_or, set, ltb, le→ltb, Bool-cases,
}

-- After `join`: the request lies within the last segment, whose length is not yet up to date.
record Joined (file : ℕ) (r : Req) (s s1 : Sweep) : Type 0 where
  front : List Range
  len : ℕ
  segs : s1.segs ≡ front ++ (record { offset = s1.cur_start; len = len } ∷ [])
  reqs : s1.reqs ≡ s.reqs
  low : s1.cur_start ≤ r.offset
  high : r.offset + r.len ≤ s1.cur_end
  fits : s1.cur_end ≤ file
  grows : Grows s.segs (front ++ (span s1.cur_start s1.cur_end ∷ []))
  inside : All (InFile file) front

module _ (file gap : ℕ) (s : Sweep) (v : IsSweep file s) (r : Req)
    (in_file : r.offset + r.len ≤ file) (sorted : s.cur_start ≤ r.offset) where
  Joined-new : Joined file r s (record s {
    segs = s.segs ++ (record { offset = r.offset; len = 0 } ∷ []);
    cur_start = r.offset;
    cur_end = r.offset + r.len;
  })
  Joined-new = record {
    front = s.segs;
    len = 0;
    segs = refl;
    reqs = refl;
    low = omega arith;
    high = omega arith;
    fits = in_file;
    grows = Grows-snoc s.segs _;
    inside = v.inside;
  }

  Joined-last :
      (front : List Range)
      → s.segs ≡ front ++ (span s.cur_start s.cur_end ∷ [])
      → Joined file r s (record s { cur_end = max s.cur_end (r.offset + r.len) })
  Joined-last front e = record {
    front = front;
    len = s.cur_end - s.cur_start;
    segs = e;
    reqs = refl;
    low = sorted;
    high = omega arith;
    fits = omega (arith, v.fits, in_file);
    grows = rw e (
        Grows-last front (span s.cur_start s.cur_end)
          (span s.cur_start (max s.cur_end (r.offset + r.len))) refl (omega arith));
    inside = All-front file front (span s.cur_start s.cur_end) (rw e at v.inside);
  }

  join_lem : Joined file r s (join gap r (r.offset + r.len) s)
  unfolding join
  join_lem = elim v.last [
    | inl none_yet ↦ rw (ap is_empty none_yet) Joined-new
    | inr (front, e) ↦
        elim (Bool-cases
          (is_empty s.segs || (ltb s.cur_end r.offset && ltb gap (r.offset - s.cur_end)))) [
            | inl hit ↦ rw hit Joined-new
            | inr miss ↦ rw miss (Joined-last front e)
          ]
  ]

-- What a round does: the sweep goes on, the request of the handle is covered, and no segment is lost.
pub record Swept (file k : ℕ) (r : Req) (s s' : Sweep) : Type 0 where
  pub req : Req
  pub reqs : s'.reqs ≡ set s.reqs k req
  pub same_offset : req.offset ≡ r.offset
  pub same_len : req.len ≡ r.len
  pub covers : Covers s'.segs req
  pub grows : Grows s.segs s'.segs
  pub sweep : IsSweep file s'
  pub low : s'.cur_start ≤ r.offset

abbrev placed_req : Req → Sweep → Req
placed_req r s1 = record r {
  len_size = r.len;
  phys_idx = length s1.segs - 1;
  sub_offset = r.offset - s1.cur_start;
}

abbrev placed_sweep : ℕ → Req → Sweep → Sweep
placed_sweep k r s1 = record s1 {
  segs = set_back_len s1.segs (s1.cur_end - s1.cur_start);
  reqs = set s1.reqs k (placed_req r s1);
}

module _ (file k : ℕ) (r : Req) (s s1 : Sweep) (small : file < 2 ^ 64)
    (j : Joined file r s s1) where
  place_lem : place k r r.len s1 ≡ ok (placed_sweep k r s1)
  unfolding place
  place_lem =
      rw
        (
          sub_64_lem r.offset s1.cur_start j.low (omega (arith, j.high, j.fits, small)),
          checked_size_lem (r.offset - s1.cur_start) (omega (arith, j.high, j.fits, small)),
        )
        (rw
          (
            sub_64_lem s1.cur_end s1.cur_start (omega (arith, j.low, j.high))
                (omega (arith, j.fits, small)),
            checked_size_lem (s1.cur_end - s1.cur_start) (omega (arith, j.fits, small)),
          )
          refl)

  abbrev final_segs : List Range
  final_segs = j.front ++ (span s1.cur_start s1.cur_end ∷ [])

  segs_are : set_back_len s1.segs (s1.cur_end - s1.cur_start) ≡ final_segs
  segs_are = rw j.segs (
      set_back_len-snoc j.front (record { offset = s1.cur_start; len = j.len })
        (s1.cur_end - s1.cur_start))

  last_index : length s1.segs - 1 ≡ length j.front
  last_index =
      rw j.segs
        (omega (arith, length-append j.front (record { offset = s1.cur_start; len = j.len } ∷ [])))

  Covers-final : Covers final_segs (placed_req r s1)
  Covers-final = rw last_index (record {
    placed = omega (arith, length-append j.front (span s1.cur_start s1.cur_end ∷ []));
    start =
        rw (get_or-append j.front [] (span s1.cur_start s1.cur_end) no_range)
          (omega (arith, j.low));
    end =
        rw (get_or-append j.front [] (span s1.cur_start s1.cur_end) no_range)
          (omega (arith, j.low, j.high));
    size = refl;
  })

  swept : Swept file k r s (placed_sweep k r s1)
  swept = record {
    req = placed_req r s1;
    reqs = ap (λ (reqs : List Req). set reqs k (placed_req r s1)) j.reqs;
    same_offset = refl;
    same_len = refl;
    covers = rw segs_are Covers-final;
    grows = rw segs_are j.grows;
    sweep = record {
      last = inr (j.front, segs_are);
      order = omega (arith, j.low, j.high);
      fits = j.fits;
      inside = rw segs_are (
          All-snoc file j.front (span s1.cur_start s1.cur_end) j.inside
            (omega (arith, j.fits, j.low, j.high)));
    };
    low = j.low;
  }

-- A round for a request within a file of less than 2 ^ 64 bytes, which starts no lower than the last
-- segment, does not fail.
pub sweep_one_lem :
    (file gap k : ℕ) (s : Sweep)
    → file < 2 ^ 64
    → IsSweep file s
    → (get_or s.reqs k no_req).offset + (get_or s.reqs k no_req).len ≤ file
    → s.cur_start ≤ (get_or s.reqs k no_req).offset
    → (s' : Sweep) × (sweep_one gap k s ≡ ok s') × Swept file k (get_or s.reqs k no_req) s s'
unfolding sweep_one checked_end
sweep_one_lem file gap k s small v in_file sorted =
    let r = get_or s.reqs k no_req in
    let s1 = join gap r (r.offset + r.len) s in
    let j = join_lem file gap s v r in_file sorted in
    (
      placed_sweep k r s1,
      rw (room, checked_size_lem r.len (omega (arith, in_file, small)))
          (place_lem file k r s s1 small j),
      swept file k r s s1 small j,
    )
  where
    room : ltb (max_64 - (get_or s.reqs k no_req).offset) (get_or s.reqs k no_req).len ≡ false
    room = le→ltb _ _ (omega (arith, in_file, small))
