-- ===== src/Io/BatchRangeFetcher.antt =====
-- core/include/snii/io/batch_range_fetcher.h, core/src/io/batch_range_fetcher.cpp
-- std::sort and FileReader::read_batch are parameters: the order of the handles that the sort gives, and
-- the function that reads a batch of ranges.
pub mod Segments
pub mod Step
pub mod Fetch
use snii.Common.{
  sub_64, ℕ, ◌+◌, ◌-◌, ◌%◌, ◌^◌, max, Bool, true, false, ◌&&◌, ◌||◌, List, [], ◌∷◌, ◌++◌, length,
  get_or, set, take, drop, ltb, if◌then◌else◌,
}
use snii.Common.Status.{corruption, ok, ◌>>=◌, Result}

pub record Req : Type 0 where
  pub offset : ℕ
  pub len : ℕ
  pub len_size : ℕ
  pub phys_idx : ℕ
  pub sub_offset : ℕ

pub record Range : Type 0 where
  pub offset : ℕ
  pub len : ℕ

abbrev pub max_64 : ℕ
max_64 = 2 ^ 64 - 1

unfoldable pub checked_end : ℕ → ℕ → Result ℕ
checked_end offset len =
    if ltb (max_64 - offset) len
    then corruption "batch_range_fetcher: range end overflow"
    else ok (offset + len)

-- size_t has 64 bits.
unfoldable pub checked_size : ℕ → Result ℕ
checked_size len =
    if ltb max_64 len then corruption "batch_range_fetcher: physical range too large" else ok len

abbrev pub no_req : Req
no_req = record { offset = 0; len = 0; len_size = 0; phys_idx = 0; sub_offset = 0 }

abbrev pub no_range : Range
no_range = record { offset = 0; len = 0 }

-- The handle of a new request and the requests with it.
unfoldable pub add : List Req → ℕ → ℕ → ℕ × List Req
add reqs offset len = (
  length reqs,
  reqs ++ (record { offset = offset; len = len; len_size = 0; phys_idx = 0; sub_offset = 0 } ∷ []),
)

-- No requests and no buffers, whatever there were.
unfoldable pub clear : List Req × List (List ℕ) → List Req × List (List ℕ)
clear state = ([], [])

-- The variables of the sweep.
pub record Sweep : Type 0 where
  pub segs : List Range
  pub cur_start : ℕ
  pub cur_end : ℕ
  pub reqs : List Req

abbrev is_empty : List Range → Bool
is_empty [] = true
is_empty (seg ∷ segs) = false

-- The segment for a request: a new one, or the last one made longer.
unfoldable pub join : ℕ → Req → ℕ → Sweep → Sweep
join gap r r_end s =
    if is_empty s.segs || (ltb s.cur_end r.offset && ltb gap (r.offset - s.cur_end))
    then record s {
      segs = s.segs ++ (record { offset = r.offset; len = 0 } ∷ []);
      cur_start = r.offset;
      cur_end = r_end;
    }
    else record s { cur_end = max s.cur_end r_end }

abbrev set_back_len : List Range → ℕ → List Range
set_back_len segs len =
    set segs (length segs - 1) (record (get_or segs (length segs - 1) no_range) { len = len })

-- What the request and the last segment are given.
unfoldable pub place : ℕ → Req → ℕ → Sweep → Result Sweep
place k r len_size s = checked_size (sub_64 r.offset s.cur_start) >>= λ sub_offset.
    checked_size (sub_64 s.cur_end s.cur_start) >>= λ back_len. ok (record s {
      segs = set_back_len s.segs back_len;
      reqs =
          set s.reqs k (record r {
            len_size = len_size;
            phys_idx = length s.segs - 1;
            sub_offset = sub_offset;
          });
    })

-- One round of the sweep, for the request of handle `k`.
unfoldable pub sweep_one : ℕ → ℕ → Sweep → Result Sweep
sweep_one gap k s =
    let r = get_or s.reqs k no_req in
    checked_end r.offset r.len >>= λ r_end.
    checked_size r.len >>= λ len_size. place k r len_size (join gap r r_end s)

unfoldable pub sweep : ℕ → List ℕ → Sweep → Result Sweep
sweep gap [] s = ok s
sweep gap (k ∷ order) s = sweep_one gap k s >>= sweep gap order

abbrev pub start : List Req → Sweep
start reqs = record { segs = []; cur_start = 0; cur_end = 0; reqs = reqs }

module _ (sort_by_offset : List Req → List ℕ)
    (read_batch : List Range → Result (List (List ℕ))) where
  -- The requests and the physical buffers after a fetch.
  unfoldable pub fetch : ℕ → List Req → Result (List Req × List (List ℕ))
  fetch gap [] = ok ([], [])
  fetch gap (r ∷ reqs) = sweep gap (sort_by_offset (r ∷ reqs)) (start (r ∷ reqs)) >>= λ s.
      read_batch s.segs >>= λ phys. ok (s.reqs, phys)

unfoldable pub get : List Req → List (List ℕ) → ℕ → List ℕ
get reqs phys h =
    let r = get_or reqs h no_req in take r.len_size (drop r.sub_offset (get_or phys r.phys_idx []))
