-- ===== src/Format/DictBlock/Reader.antt =====
-- DictBlockReader of core/src/format/dict_block.cpp.
use snii.Encoding.Source.{
  get_position, get_eof, subslice, lift, get_u8, get_varint64, get_fixed32, run_get, Slice, Get,
  ◌>>=◌, ◌>>◌, pure, reject_if,
}
use snii.Common.Status.{unsupported, internal, ok, invalid_argument, Result, corruption}
use snii.Format.DictBlock.{
  format_ver, crc32c, anchor_off_bytes, footer_bytes, DictEntry, n_anchors_bytes,
  has_positions_flag,
}
use snii.Format.Constants.{IndexTier}
use snii.Format.SampledIndex.{Term}
use snii.Format.DictEntry.Decode.{decode_dict_entry}
use snii.Common.{
  ℕ, zero, suc, ◌+◌, ◌-◌, ◌*◌, ◌/◌, ◌%◌, ◌^◌, sub_64, Bool, true, false, not, ◌||◌, List, [], ◌∷◌,
  ◌++◌, map, length, get_or, ltb, leb, ◌==◌, bit_and, bytes_lt, bytes_eq, Option, none, some,
  if◌then◌else◌,
}
use snii.Common.Status

pub record DictBlockReader : Type 0 where
  pub block : Slice
  pub tier : IndexTier
  pub has_positions : Bool
  pub frq_base : ℕ
  pub prx_base : ℕ
  pub n_entries : ℕ
  pub entries_begin : ℕ
  pub anchor_offsets : List ℕ
  pub anchor_terms : List Term

-- The covered region.
unfoldable pub verify_crc : Slice → Result Slice
verify_crc block =
    let covered_len = length block - footer_bytes in
    let covered = subslice block 0 covered_len in
    if ltb (length block) (footer_bytes + n_anchors_bytes)
    then corruption "dict_block: block too short to contain footer"
    else Status.◌>>=◌ (run_get get_fixed32 (subslice block covered_len footer_bytes)) (λ stored.
      if crc32c covered == stored
      then ok covered
      else corruption "dict_block: crc32c checksum mismatch")

unfoldable pub same_flag : Bool → Bool → Bool
same_flag true b = b
same_flag false b = not b

unfoldable pub check_flags : ℕ → Bool → Get (Unit {0})
check_flags flags has_positions =
    reject_if (not (same_flag (not (bit_and flags has_positions_flag == 0)) has_positions))
      (invalid_argument "dict_block: has_positions inconsistent with block_flags")

-- The reader as far as the header goes.
unfoldable pub get_block_header : Slice → IndexTier → Bool → Get DictBlockReader
get_block_header covered tier has_positions = do
  n_entries ← get_varint64
  ver ← get_u8
  flags ← get_u8
  reject_if (not (ver == format_ver)) (unsupported "dict_block: unsupported entry_format_ver")
  check_flags flags has_positions
  frq_base ← get_varint64
  prx_base ← (if has_positions then get_varint64 else pure 0)
  entries_begin ← get_position
  pure (record {
    block = covered;
    tier = tier;
    has_positions = has_positions;
    frq_base = frq_base;
    prx_base = prx_base;
    n_entries = n_entries % 2 ^ 32;
    entries_begin = entries_begin;
    anchor_offsets = [];
    anchor_terms = [];
  })

-- The first anchor starts the entries, and each later one lies above the one before.
unfoldable pub check_order : ℕ → Option ℕ → ℕ → Get (Unit {0})
check_order begin none off =
    reject_if (not (off == begin))
      (corruption "dict_block: first anchor offset is not the start of entries")
check_order begin (some last) off =
    reject_if (leb off last) (corruption "dict_block: anchor offsets are not strictly increasing")

-- The loop over the anchor table; an anchor's term is decoded on its own.
unfoldable pub load_anchors : DictBlockReader → ℕ → ℕ → Option ℕ → Get (List (ℕ × Term))
load_anchors r table_begin zero last = pure []
load_anchors r table_begin (suc n) last = do
  off ← get_fixed32
  reject_if (leb table_begin off) (corruption "dict_block: anchor offset out of range")
  check_order r.entries_begin last off
  probe ← lift (run_get (decode_dict_entry [] r.tier) (subslice r.block off (table_begin - off)))
  rest ← load_anchors r table_begin n (some off)
  pure ((off, probe.term) ∷ rest)

unfoldable pub with_anchors : DictBlockReader → Result DictBlockReader
with_anchors r =
    let size = length r.block in
    if ltb size n_anchors_bytes
    then corruption "dict_block: missing n_anchors"
    else Status.◌>>=◌
        (run_get get_fixed32 (subslice r.block (size - n_anchors_bytes) n_anchors_bytes))
        (λ n_anchors.
          let table_bytes = n_anchors * anchor_off_bytes in
          let table_begin = size - n_anchors_bytes - table_bytes in
          if ltb size (n_anchors_bytes + table_bytes)
            || ltb size (r.entries_begin + table_bytes + n_anchors_bytes)
          then corruption "dict_block: anchor table out of range"
          else Status.◌>>=◌
              (run_get (load_anchors r table_begin n_anchors none)
                (subslice r.block table_begin table_bytes))
              (λ anchors. ok (record r {
                anchor_offsets = map (λ (a : ℕ × Term). a.0) anchors;
                anchor_terms = map (λ (a : ℕ × Term). a.1) anchors;
              })))

unfoldable pub open_block : Slice → IndexTier → Bool → Result DictBlockReader
open_block block tier has_positions = Status.◌>>=◌ (verify_crc block) (λ covered.
    Status.◌>>=◌ (run_get (get_block_header covered tier has_positions) covered) with_anchors)

-- `while (lo + 1 < hi)`, `rounds` left
unfoldable pub locate_loop : ℕ → List Term → Term → ℕ → ℕ → ℕ
locate_loop zero terms target lo hi = lo
locate_loop (suc rounds) terms target lo hi =
    let mid = lo + (hi - lo) / 2 in
    let lower = bytes_lt target (get_or terms mid []) in
    let found =
      locate_loop rounds terms target (if lower then lo else mid) (if lower then mid else hi) in
    if ltb (lo + 1) hi then found else lo

-- The search among the anchors' terms; the rounds are as many as there are terms.
unfoldable pub locate_anchor : List Term → Term → Option ℕ
locate_anchor [] target = none
locate_anchor (t ∷ ts) target =
    if bytes_lt target t
    then none
    else some (locate_loop (length (t ∷ ts)) (t ∷ ts) target 0 (length (t ∷ ts)))

-- The bytes of the segment of an anchor.
unfoldable pub segment : DictBlockReader → ℕ → Result Slice
segment r a =
    let seg_begin = get_or r.anchor_offsets a 0 in
    let count = length r.anchor_offsets in
    let seg_end =
      if a + 1 == count
      then sub_64 (sub_64 (length r.block) n_anchors_bytes) (count * anchor_off_bytes)
      else get_or r.anchor_offsets (a + 1) 0 in
    if ltb seg_end seg_begin || ltb (length r.block) seg_end
    then corruption "dict_block: anchor segment range invalid"
    else ok (subslice r.block seg_begin (seg_end - seg_begin))

-- `while (!src.eof())`: the entries of a segment; each takes a byte at least of the `rounds`.
unfoldable pub decode_segment : ℕ → IndexTier → Term → Get (List DictEntry)
decode_segment zero tier prev = reject_if true (internal "out of rounds") >> pure []
decode_segment (suc rounds) tier prev = do
  at_end ← get_eof
  (if at_end then pure [] else (do
    e ← decode_dict_entry prev tier
    rest ← decode_segment rounds tier e.term
    pure (e ∷ rest)))

-- The segments from anchor `a` on, `n` of them.
unfoldable pub decode_segments : DictBlockReader → ℕ → ℕ → Result (List DictEntry)
decode_segments r zero a = ok []
decode_segments r (suc n) a = Status.◌>>=◌ (segment r a) (λ seg.
    Status.◌>>=◌ (run_get (decode_segment (length seg + 1) r.tier []) seg)
      (λ entries. Status.◌>>=◌ (decode_segments r n (a + 1)) (λ rest. ok (entries ++ rest))))

unfoldable pub decode_all : DictBlockReader → Result (List DictEntry)
decode_all r = Status.◌>>=◌ (decode_segments r (length r.anchor_offsets) 0) (λ out.
    if length out == r.n_entries
    then ok out
    else corruption "dict_block: decoded entry count mismatch")

unfoldable pub scan_loop : ℕ → IndexTier → Term → Term → Get (Option DictEntry)
scan_loop zero tier target prev = reject_if true (internal "out of rounds") >> pure none
scan_loop (suc rounds) tier target prev = do
  at_end ← get_eof
  (if at_end then pure none else (do
    e ← decode_dict_entry prev tier
    (if bytes_eq e.term target
        then pure (some e)
        else (if bytes_lt target e.term then pure none else scan_loop rounds tier target e.term))))

unfoldable pub scan_from_anchor : DictBlockReader → ℕ → Term → Result (Option DictEntry)
scan_from_anchor r a target =
    Status.◌>>=◌ (segment r a) (λ seg. run_get (scan_loop (length seg + 1) r.tier target []) seg)

abbrev scan_located : DictBlockReader → Term → Option ℕ → Result (Option DictEntry)
scan_located r target none = ok none
scan_located r target (some a) = scan_from_anchor r a target

unfoldable pub find_term : DictBlockReader → Term → Result (Option DictEntry)
find_term r target = scan_located r target (locate_anchor r.anchor_terms target)
