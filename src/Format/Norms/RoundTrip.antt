-- ===== src/Format/Norms/RoundTrip.antt =====
-- NormsPodWriter and NormsPodReader of core/src/format/norms_pod.cpp, together.
use snii.Common.{
  ℕ, ◌+◌, ◌%◌, ◌^◌, ◌<◌, ◌≡◌, refl, arith, List, [], ◌∷◌, ◌++◌, length, length-append,
  get_or-append, ==_self, le→ltb,
}
use snii.Common.Status.{ok, invalid_argument}
use snii.Encoding.Varint.{encode_varint64}
use snii.Encoding.Varint.RoundTrip.{IsU64}
use snii.Encoding.Varint.Shape.{encode_varint64_shape}
use snii.Encoding.Codec.{Reads-pure_eq, Writes-⨾, Reads, Reads-last, run_get-Reads}
use snii.Encoding.Codec.Primitives.{
  Writes-put_varint64, Writes-put_bytes, Reads-get_varint64, Reads-get_bytes,
}
use snii.Encoding.Codec.End.{
  ReadsEnd, ReadsEnd->>=, ReadsEnd-reject, ReadsEnd-get_remaining, Reads→ReadsEnd, run_get-ReadsEnd,
}
use snii.Encoding.Codec.Many.{Reads-lift}
use snii.Encoding.Framer.RoundTrip.{section_bytes, Writes-write_section, Reads-read_section}
use snii.Format.Constants.{stats_block_type}
use snii.Format.Norms.{
  count, NormsPodWriter, NormsPodReader, add, finish, get_norms, get_section, open_norms,
  try_encoded_norm,
}

abbrev payload_bytes : List ℕ → List ℕ
payload_bytes norms = encode_varint64 (length norms) ++ norms

-- What is read from a writer's section.
abbrev reader_of : List ℕ → NormsPodReader
reader_of norms = record { norms = norms; doc_count = length norms }

ReadsEnd-get_norms :
    (norms : List ℕ)
    → length norms < 2 ^ 32
    → ReadsEnd get_norms (payload_bytes norms) (reader_of norms)
unfolding get_norms
ReadsEnd-get_norms norms h =
    ReadsEnd->>= _ (length norms) (Reads-get_varint64 (length norms) (omega arith)) (
      ReadsEnd-reject _ (le→ltb _ _ (omega arith)) (
        ReadsEnd-get_remaining _ (
          ReadsEnd-reject _ (rw ==_self refl)
            (Reads→ReadsEnd (Reads-last _ norms (Reads-get_bytes norms) (Reads-pure_eq same))))))
  where
    same : record { norms = norms; doc_count = length norms % 2 ^ 32 } ≡ reader_of norms
    same = ground arith

finish_bytes :
    (w : NormsPodWriter) → finish w [] ≡ section_bytes stats_block_type (payload_bytes w.norms)
unfolding finish
finish_bytes w =
    rw ((Writes-⨾ (Writes-put_varint64 (length w.norms)) (Writes-put_bytes w.norms)).run [])
      ((Writes-write_section stats_block_type (payload_bytes w.norms)).run [])

-- With fewer than 2 ^ 32 documents, NormsPodReader::open over what NormsPodWriter::finish wrote
-- gives a reader with the writer's norms and count.
pub open_norms-finish :
    (w : NormsPodWriter)
    → length w.norms < 2 ^ 32
    → open_norms (finish w []) ≡ ok (record { norms = w.norms; doc_count = count w })
unfolding open_norms count
open_norms-finish w h = rw (finish_bytes w) (run_get-Reads section)
  where
    section :
        Reads get_section
          (section_bytes stats_block_type (payload_bytes w.norms))
          (reader_of w.norms)
    section =
        unfold get_section in
        Reads-last _ _ (Reads-read_section stats_block_type (payload_bytes w.norms) size)
          (Reads-lift (run_get-ReadsEnd (ReadsEnd-get_norms w.norms h)))
      where
        size : IsU64 (length (payload_bytes w.norms))
        size = omega (
          arith,
          length-append (encode_varint64 (length w.norms)) w.norms,
          (encode_varint64_shape (length w.norms) (omega arith)).2,
        )

-- The norm added after `w` has the docid that was next, and one docid further there is none.
pub try_encoded_norm-add :
    (w : NormsPodWriter) (norm : ℕ)
    → count w + 1 < 2 ^ 32
    → (r : NormsPodReader) × (open_norms (finish (add norm w) []) ≡ ok r)
      × (try_encoded_norm r (count w) ≡ ok norm)
      × (try_encoded_norm r (count w + 1) ≡ invalid_argument "norms: docid out of range")
unfolding add count try_encoded_norm
try_encoded_norm-add w norm h = (
  record { norms = w.norms ++ (norm ∷ []); doc_count = length (w.norms ++ (norm ∷ [])) },
  open_norms-finish (record { norms = w.norms ++ (norm ∷ []) }) (omega (arith, longer)),
  ground (arith, longer, get_or-append w.norms [] norm 0),
  ground (arith, longer),
)
  where
    longer : length (w.norms ++ (norm ∷ [])) ≡ length w.norms + 1
    longer = omega (arith, length-append w.norms (norm ∷ []))
