-- ===== src/Io/Tests.antt =====
-- Runs of core/src/io at concrete inputs.
use snii.Io.BatchRangeFetcher.Fetch.{fetch_lem, Fetches, bytes_in, IsSorted, is_in}
use snii.Io.BatchRangeFetcher.{
  place, join, checked_size, checked_end, sweep_one, sweep, Range, fetch, Req, no_req,
}
use snii.Common.Status.{ok, Result}
use snii.Common.{
  ℕ, zero, suc, ◌+◌, ◌≤◌, ◌<◌, ◌≡◌, refl, arith, true, List, [], ◌∷◌, length, map, get_or,
}

abbrev first_req : Req
first_req = record no_req { offset = 5; len = 2 }

abbrev reqs : List Req
reqs = first_req ∷ record no_req { offset = 1; len = 3 } ∷ []

abbrev file : List ℕ
file = 10 ∷ 11 ∷ 12 ∷ 13 ∷ 14 ∷ 15 ∷ 16 ∷ 17 ∷ []

abbrev by_offset : List Req → List ℕ
by_offset requests = 1 ∷ 0 ∷ []

abbrev read_ranges : List Range → Result (List (List ℕ))
read_ranges segs = ok (map (bytes_in file) segs)

in_file : (i : ℕ) → (get_or reqs i no_req).offset + (get_or reqs i no_req).len ≤ length file
in_file zero = omega arith
in_file (suc zero) = omega arith
in_file (suc (suc i)) = omega arith

all_in : (h : ℕ) → h < length reqs → is_in h (1 ∷ 0 ∷ []) ≡ true
all_in zero lt = refl
all_in (suc zero) lt = refl
all_in (suc (suc h)) lt = absurd (omega arith)

sorted : IsSorted reqs (by_offset reqs)
sorted = record {
  ascending = (omega arith, omega arith, (omega arith, omega arith, tt));
  all = all_in;
}

fetch_lem_example : Fetches by_offset read_ranges 0 file reqs 1
fetch_lem_example =
    fetch_lem by_offset read_ranges 0 file reqs 1 (omega arith) (omega arith) in_file sorted
      (record { within = λ segs h. refl })

-- With a gap of one byte both requests share a read.
shared :
    fetch by_offset read_ranges 1 reqs
    ≡ ok (
      record { offset = 5; len = 2; len_size = 2; phys_idx = 0; sub_offset = 4 }
          ∷ record { offset = 1; len = 3; len_size = 3; phys_idx = 0; sub_offset = 0 }
          ∷ [],
      (11 ∷ 12 ∷ 13 ∷ 14 ∷ 15 ∷ 16 ∷ []) ∷ [],
    )
unfolding fetch sweep sweep_one checked_end checked_size join place
shared = refl
