-- ===== src/Format/SampledIndex/RoundTrip.antt =====
-- SampledTermIndexBuilder::finish and SampledTermIndexReader::open of
-- core/src/format/sampled_term_index.cpp, together.
use snii.Encoding.Codec.End.{
  ReadsEnd-last, ReadsEnd, ReadsEnd->>=, ReadsEnd-reject, ReadsEnd-get_eof, Reads→ReadsEnd,
  run_get-ReadsEnd,
}
use snii.Common.{
  ℕ, zero, suc, ◌%◌, ◌^◌, ◌≤◌, ◌≡◌, refl, arith, List, [], ◌∷◌, ◌++◌, length, length-drop, take,
  drop, All, false, le→ltb, bytes_eq_self, ◌==◌,
}
use snii.Common.Status.{Result, ok}
use snii.Encoding.Source.{ByteSource}
use snii.Encoding.Varint.{encode_varint64}
use snii.Encoding.Varint.RoundTrip.{IsU64, IsU32}
use snii.Encoding.Codec.{
  Writes, Writes-⨾, Writes-nothing, Reads, Reads->>=, Reads-last, Reads-reject, Reads-pure,
  Reads-pure_eq, run_get-Reads,
}
use snii.Encoding.Codec.Primitives.{
  Writes-put_varint32, Writes-put_bytes, Reads-get_varint32, Reads-get_bytes,
}
use snii.Encoding.Codec.Many.{Reads-lift}
use snii.Encoding.Framer.RoundTrip.{
  section_bytes, length-section_bytes, Writes-write_section, Reads-read_section,
}
use snii.Format.Constants.{sampled_term_index_type}
use snii.Format.SampledIndex.{
  Term, prefix_loop, common_prefix_len, write_term_key, read_key, read_term_key, Builder, back,
  write_terms, write_body, finish, read_terms, inconsistent, read_blocks, read_none, get_payload,
  parse_payload, get_section, open_index,
}

prefix_loop_bounds :
    (k : ℕ) (xs ys : Term) → (prefix_loop k xs ys ≤ length xs) × (prefix_loop k xs ys ≤ length ys)
unfolding prefix_loop
prefix_loop_bounds zero xs ys = omega arith
prefix_loop_bounds (suc k) [] ys = omega arith
prefix_loop_bounds (suc k) (x ∷ xs) [] = omega arith
prefix_loop_bounds (suc k) (x ∷ xs) (y ∷ ys) = ground (arith, prefix_loop_bounds k xs ys)

-- The shared prefix taken from the previous term, and the rest of the term.
prefix_loop-rebuild :
    (k : ℕ) (xs ys : Term) → take (prefix_loop k xs ys) ys ++ drop (prefix_loop k xs ys) xs ≡ xs
unfolding prefix_loop
prefix_loop-rebuild zero xs ys = refl
prefix_loop-rebuild (suc k) [] ys = refl
prefix_loop-rebuild (suc k) (x ∷ xs) [] = refl
prefix_loop-rebuild (suc k) (x ∷ xs) (y ∷ ys) = ground (arith, prefix_loop-rebuild k xs ys)

abbrev pub key_prefix : Term → Term → ℕ
key_prefix term prev = common_prefix_len term prev

abbrev pub key_bytes : Term → Term → List ℕ
key_bytes term prev =
    encode_varint64 (key_prefix term prev)
    ++ (encode_varint64 (length (drop (key_prefix term prev) term) % 2 ^ 32)
        ++ drop (key_prefix term prev) term)

pub Writes-write_term_key :
    (term prev : Term) → Writes (write_term_key term prev) (key_bytes term prev)
unfolding write_term_key
Writes-write_term_key term prev =
    Writes-⨾ (Writes-put_varint32 _) (Writes-⨾ (Writes-put_varint32 _) (Writes-put_bytes _))

abbrev pub IsShort : Term → Type 0
IsShort t = IsU32 (length t)

-- The reader of a key gives back the term that write_term_key front-coded against the same previous
-- term, if the term has fewer than 2 ^ 32 bytes.
pub Reads-read_key :
    (e : Result (Unit {0} × ByteSource)) (term prev : Term)
    → IsShort term
    → Reads (read_key e prev) (key_bytes term prev) term
unfolding read_key
Reads-read_key e term prev h = rw small (
    Reads->>= _ _ (Reads-get_varint32 (key_prefix term prev) (omega (arith, bounds))) (
      Reads->>= _ _
        (Reads-get_varint32 (length suffix)
          (omega (arith, length-drop (key_prefix term prev) term)))
        (Reads-reject _ (le→ltb _ _ (bounds.1))
          (Reads-last _ _ (Reads-get_bytes suffix) (Reads-pure_eq whole)))))
  where
    suffix : Term
    suffix = drop (key_prefix term prev) term

    bounds : (key_prefix term prev ≤ length term) × (key_prefix term prev ≤ length prev)
    bounds = unfold common_prefix_len in prefix_loop_bounds _ term prev

    small : length suffix % 2 ^ 32 ≡ length suffix
    small = omega (arith, length-drop (key_prefix term prev) term)

    whole : take (key_prefix term prev) prev ++ suffix ≡ term
    whole = unfold common_prefix_len in prefix_loop-rebuild _ term prev

Reads-read_term_key :
    (term prev : Term) → IsShort term → Reads (read_term_key prev) (key_bytes term prev) term
unfolding read_term_key
Reads-read_term_key term prev h = Reads-read_key _ term prev h

abbrev terms_bytes : Term → List Term → List ℕ
terms_bytes prev [] = []
terms_bytes prev (t ∷ ts) = key_bytes t prev ++ terms_bytes t ts

Writes-write_terms :
    (prev : Term) (ts : List Term) → Writes (write_terms prev ts) (terms_bytes prev ts)
unfolding write_terms
Writes-write_terms prev [] = Writes-nothing
Writes-write_terms prev (t ∷ ts) = Writes-⨾ (Writes-write_term_key t prev) (Writes-write_terms t ts)

Reads-read_terms :
    (prev : Term) (ts : List Term)
    → All IsShort ts
    → Reads (read_terms (length ts) prev) (terms_bytes prev ts) ts
unfolding read_terms
Reads-read_terms prev [] v = Reads-pure []
Reads-read_terms prev (t ∷ ts) (vt, vts) =
    Reads->>= _ t (Reads-read_term_key t prev vt)
      (Reads-last _ ts (Reads-read_terms t ts vts) (Reads-pure (t ∷ ts)))

abbrev body_bytes : List Term → List ℕ
body_bytes [] = []
body_bytes (t ∷ ts) = key_bytes t [] ++ (key_bytes (back t ts) [] ++ terms_bytes [] (t ∷ ts))

Writes-write_body : (ts : List Term) → Writes (write_body ts) (body_bytes ts)
unfolding write_body
Writes-write_body [] = Writes-nothing
Writes-write_body (t ∷ ts) =
    Writes-⨾ (Writes-write_term_key t [])
      (Writes-⨾ (Writes-write_term_key (back t ts) []) (Writes-write_terms [] (t ∷ ts)))

back-IsShort : (t : Term) (ts : List Term) → IsShort t → All IsShort ts → IsShort (back t ts)
back-IsShort t [] vt vts = vt
back-IsShort t (u ∷ us) vt (vu, vus) = back-IsShort u us vu vus

consistent : (t : Term) (ts : List Term) → inconsistent (t ∷ ts) t (back t ts) ≡ false
unfolding inconsistent
consistent t ts = rw (bytes_eq_self t, bytes_eq_self (back t ts))

ReadsEnd-read_blocks :
    (t : Term) (ts : List Term)
    → IsShort t
    → All IsShort ts
    → ReadsEnd (read_blocks (suc (length ts))) (body_bytes (t ∷ ts)) (t ∷ ts)
unfolding read_blocks
ReadsEnd-read_blocks t ts vt vts = ReadsEnd->>= _ _ (Reads-read_term_key t [] vt) (
    ReadsEnd->>= _ _ (Reads-read_term_key (back t ts) [] (back-IsShort t ts vt vts)) (
      ReadsEnd-last _ _ (Reads-read_terms [] (t ∷ ts) (vt, vts)) (
        ReadsEnd-get_eof _ (
          ReadsEnd-reject _ refl
            (ReadsEnd-reject _ (consistent t ts) (Reads→ReadsEnd (Reads-pure (t ∷ ts))))))))

abbrev payload_bytes : List Term → List ℕ
payload_bytes ts = encode_varint64 (length ts) ++ body_bytes ts

run-parse_payload :
    (ts : List Term) → IsU32 (length ts) → All IsShort ts → parse_payload (payload_bytes ts) ≡ ok ts
unfolding parse_payload
run-parse_payload ts h v = run_get-ReadsEnd (payload ts h v)
  where
    none_read : ReadsEnd read_none [] []
    none_read =
        unfold read_none in
        ReadsEnd-get_eof _ (ReadsEnd-reject _ refl (Reads→ReadsEnd (Reads-pure [])))

    not_empty : (n : ℕ) → (suc n == 0) ≡ false
    not_empty n = ground arith

    payload :
        (ts : List Term)
        → IsU32 (length ts)
        → All IsShort ts
        → ReadsEnd get_payload (payload_bytes ts) ts
    payload [] h v = unfold get_payload in ReadsEnd->>= _ 0 (Reads-get_varint32 0 h) none_read
    payload (t ∷ ts) h (vt, vts) =
        unfold get_payload in
        ReadsEnd->>= _ (suc (length ts)) (Reads-get_varint32 (suc (length ts)) h)
          (rw (not_empty (length ts)) (ReadsEnd-read_blocks t ts vt vts))

finish_bytes :
    (b : Builder)
    → IsU32 (length b.first_terms)
    → finish b [] ≡ section_bytes sampled_term_index_type (payload_bytes b.first_terms)
unfolding finish
finish_bytes b h =
    rw
      (
        small,
        (Writes-⨾ (Writes-put_varint32 (length b.first_terms))
              (Writes-write_body b.first_terms)).run
            [],
      )
      ((Writes-write_section sampled_term_index_type (payload_bytes b.first_terms)).run [])
  where
    small : length b.first_terms % 2 ^ 32 ≡ length b.first_terms
    small = omega arith

-- SampledTermIndexReader::open over what SampledTermIndexBuilder::finish wrote gives the first terms
-- of the blocks in order, the empty index included, if there are fewer than 2 ^ 32 terms of fewer than
-- 2 ^ 32 bytes and the section's size fits 64 bits.
pub open_index-finish :
    (b : Builder)
    → IsU32 (length b.first_terms)
    → All IsShort b.first_terms
    → IsU64 (length (finish b []))
    → open_index (finish b []) ≡ ok (record { sample_terms = b.first_terms })
unfolding open_index
open_index-finish b h v size = rw (finish_bytes b h) (run_get-Reads section)
  where
    payload_size : IsU64 (length (payload_bytes b.first_terms))
    payload_size =
        let whole : IsU64
            (length (section_bytes sampled_term_index_type (payload_bytes b.first_terms))) =
          rw (finish_bytes b h) at size in
        omega (arith, length-section_bytes sampled_term_index_type (payload_bytes b.first_terms))

    section :
        Reads get_section
          (section_bytes sampled_term_index_type (payload_bytes b.first_terms))
          (record { sample_terms = b.first_terms })
    section =
        unfold get_section in
        Reads-last _ _
          (Reads-read_section sampled_term_index_type (payload_bytes b.first_terms) payload_size)
          (Reads-reject _ refl
            (Reads-last _ _ (Reads-lift (run-parse_payload b.first_terms h v)) (Reads-pure _)))
