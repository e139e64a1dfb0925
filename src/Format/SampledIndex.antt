-- ===== src/Format/SampledIndex.antt =====
-- core/include/snii/format/sampled_term_index.h, core/src/format/sampled_term_index.cpp
-- A term is the list of its bytes, and std::string_view compares terms byte by byte, unsigned.
pub mod RoundTrip
pub mod Locate
use snii.Common.{
  ℕ, zero, suc, ◌+◌, ◌-◌, ◌%◌, ◌^◌, min, Bool, true, false, List, [], ◌∷◌, ◌++◌, length, take, drop,
  get_or, ltb, ◌==◌, ◌||◌, not, bytes_eq, bytes_lt, Option, some, none, if◌then◌else◌,
}
use snii.Common.Status.{Result, corruption, invalid_argument}
use snii.Encoding.Sink.{Put, ◌⨾◌, put_nothing, put_bytes, put_varint32}
use snii.Encoding.Source.{
  ByteSource, Slice, Get, ◌>>=◌, ◌>>◌, pure, lift, reject_if, run_get, get_eof, get_bytes,
  get_varint32,
}
use snii.Encoding.Framer.{write_section, read_section}
use snii.Format.Constants.{sampled_term_index_type}

abbrev pub Term : Type 0
Term = List ℕ

-- `while (n < lim && term[n] == prev[n]) ++n;`, `lim - n` rounds left.
unfoldable pub prefix_loop : ℕ → Term → Term → ℕ
prefix_loop (suc k) (x ∷ xs) (y ∷ ys) =
    let rest = prefix_loop k xs ys in if x == y then suc rest else 0
prefix_loop _ _ _ = 0

unfoldable pub common_prefix_len : Term → Term → ℕ
common_prefix_len term prev = prefix_loop (min (length term) (length prev) % 2 ^ 32) term prev

unfoldable pub write_term_key : Term → Term → Put
write_term_key term prev =
    let prefix = common_prefix_len term prev in
    let suffix = drop prefix term in
    put_varint32 prefix ⨾ put_varint32 (length suffix % 2 ^ 32) ⨾ put_bytes suffix

-- The reader of a term key, which dict_entry.cpp has too: `e` is its answer to a prefix that is too long.
unfoldable pub read_key : Result (Unit {0} × ByteSource) → Term → Get Term
read_key e prev = do
  prefix ← get_varint32
  suffix_len ← get_varint32
  reject_if (ltb (length prev) prefix) e
  suffix ← get_bytes suffix_len
  pure (take prefix prev ++ suffix)

unfoldable pub read_term_key : Term → Get Term
unfolding read_key
read_term_key prev =
    read_key (corruption "sampled_term_index: prefix_len exceeds prev_term length") prev

-- SampledTermIndexBuilder
pub record Builder : Type 0 where
  pub first_terms : List Term

unfoldable pub add_block_first_term : Term → Builder → Builder
add_block_first_term first_term b = record { first_terms = b.first_terms ++ (first_term ∷ []) }

-- `terms.back()` of a non-empty vector.
abbrev pub back : Term → List Term → Term
back t [] = t
back t (u ∷ us) = back u us

-- `prev` is the term before the list.
unfoldable pub write_terms : Term → List Term → Put
write_terms prev [] = put_nothing
write_terms prev (t ∷ ts) = write_term_key t prev ⨾ write_terms t ts

unfoldable pub write_body : List Term → Put
write_body [] = put_nothing
write_body (t ∷ ts) = write_term_key t [] ⨾ write_term_key (back t ts) [] ⨾ write_terms [] (t ∷ ts)

unfoldable pub finish : Builder → Put
finish b =
    write_section sampled_term_index_type
      ((put_varint32 (length b.first_terms % 2 ^ 32) ⨾ write_body b.first_terms) [])

unfoldable pub read_terms : ℕ → Term → Get (List Term)
read_terms zero prev = pure []
read_terms (suc n) prev = do
  term ← read_term_key prev
  terms ← read_terms n term
  pure (term ∷ terms)

-- `out.front() != min_term || out.back() != max_term`; `out` is not empty when this is asked.
unfoldable pub inconsistent : List Term → Term → Term → Bool
inconsistent [] min_term max_term = true
inconsistent (t ∷ ts) min_term max_term =
    not (bytes_eq t min_term) || not (bytes_eq (back t ts) max_term)

unfoldable pub read_blocks : ℕ → Get (List Term)
read_blocks n_blocks = do
  min_term ← read_term_key []
  max_term ← read_term_key []
  out ← read_terms n_blocks []
  ended ← get_eof
  reject_if (not ended) (corruption "sampled_term_index: payload contains trailing bytes")
  reject_if (inconsistent out min_term max_term)
      (corruption "sampled_term_index: min/max inconsistent with sample_terms")
  pure out

unfoldable pub read_none : Get (List Term)
read_none = do
  ended ← get_eof
  reject_if (not ended) (corruption "sampled_term_index: empty index contains trailing bytes")
  pure []

unfoldable pub get_payload : Get (List Term)
get_payload = do
  n_blocks ← get_varint32
  (if n_blocks == 0 then read_none else read_blocks n_blocks)

unfoldable pub parse_payload : Slice → Result (List Term)
parse_payload payload = run_get get_payload payload

-- SampledTermIndexReader
pub record Reader : Type 0 where
  pub sample_terms : List Term

unfoldable pub get_section : Get Reader
get_section = do
  sec ← read_section
  reject_if (not (sec.section_type == sampled_term_index_type))
      (invalid_argument "sampled_term_index: not a kSampledTermIndex section")
  terms ← lift (parse_payload sec.payload)
  pure (record { sample_terms = terms })

unfoldable pub open_index : Slice → Result Reader
open_index section = run_get get_section section

-- std::upper_bound on a sorted range: the index of the first term above the target.
unfoldable pub upper_bound : Term → List Term → ℕ
upper_bound target [] = 0
upper_bound target (t ∷ ts) =
    let rest = upper_bound target ts in if bytes_lt target t then 0 else suc rest

-- `none` is `*maybe_present = false`.
unfoldable pub locate_in : Term → List Term → Option ℕ
locate_in target [] = none
locate_in target (t ∷ ts) =
    if bytes_lt target t then none else some ((upper_bound target (t ∷ ts) - 1) % 2 ^ 32)

unfoldable pub locate : Reader → Term → Option ℕ
locate r target = locate_in target r.sample_terms
