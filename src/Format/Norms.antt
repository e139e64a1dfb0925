-- ===== src/Format/Norms.antt =====
-- core/include/snii/format/norms_pod.h, core/src/format/norms_pod.cpp
-- A reader keeps a pointer into the section and a count; the model keeps the bytes themselves.
pub mod RoundTrip
use snii.Common.{
  ℕ, ◌+◌, ◌%◌, ◌^◌, List, [], ◌∷◌, ◌++◌, length, ltb, leb, ◌==◌, not, get_or, if◌then◌else◌,
}
use snii.Common.Status.{Result, ok, corruption, invalid_argument}
use snii.Encoding.Sink.{Put, ◌⨾◌, put_varint64, put_bytes}
use snii.Encoding.Source.{
  Slice, Get, ◌>>=◌, ◌>>◌, pure, lift, reject_if, run_get, get_remaining, get_varint64, get_bytes,
}
use snii.Encoding.Framer.{write_section, read_section}
use snii.Format.Constants.{stats_block_type}

-- NormsPodWriter: the norms in docid order.
pub record NormsPodWriter : Type 0 where
  pub norms : List ℕ

unfoldable pub add : ℕ → NormsPodWriter → NormsPodWriter
add encoded_norm w = record { norms = w.norms ++ (encoded_norm ∷ []) }

unfoldable pub count : NormsPodWriter → ℕ
count w = length w.norms

unfoldable pub finish : NormsPodWriter → Put
finish w = write_section stats_block_type ((put_varint64 (length w.norms) ⨾ put_bytes w.norms) [])

pub record NormsPodReader : Type 0 where
  pub norms : Slice
  pub doc_count : ℕ

unfoldable pub get_norms : Get NormsPodReader
get_norms = do
  doc_count ← get_varint64
  reject_if (ltb 0xffff_ffff doc_count) (corruption "norms POD doc_count overflows uint32")
  left ← get_remaining
  reject_if (not (left == doc_count)) (corruption "norms POD length mismatch")
  bytes ← get_bytes doc_count
  pure (record { norms = bytes; doc_count = doc_count % 2 ^ 32 })

-- NormsPodReader::open; the section's type is not looked at, nor what follows the section.
unfoldable pub get_section : Get NormsPodReader
get_section = do sec ← read_section; lift (run_get get_norms sec.payload)

unfoldable pub open_norms : Slice → Result NormsPodReader
open_norms framed = run_get get_section framed

unfoldable pub try_encoded_norm : NormsPodReader → ℕ → Result ℕ
try_encoded_norm r docid =
    if leb r.doc_count docid
    then invalid_argument "norms: docid out of range"
    else ok (get_or r.norms docid 0)
