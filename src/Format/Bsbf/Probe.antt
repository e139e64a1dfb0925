-- ===== src/Format/Bsbf/Probe.antt =====
-- bsbf_probe of core/src/format/bsbf.cpp on a file that holds what BsbfBuilder::serialize wrote.
use snii.Format.Bsbf.Words.{
  length-word_bytes, block_loop-find_masks, drop-beyond, take-drop-within, length-take-within,
  take-all,
}
use native.Mathlib.Nat.{add-zero}
use snii.Common.{
  take-append, append_assoc, length-drop, le→ltb, ltb, append-nil, length-append, ℕ, ◌+◌, ◌*◌, ◌%◌,
  ◌^◌, ◌≤◌, ◌<◌, ◌≡◌, refl, ap, arith, false, List, [], ◌++◌, length, take, drop,
}
use snii.Format.Bsbf.{
  first_word, bytes_per_block, bsbf_block_index, masks_scalar, find_scalar, maybe_contains,
  block_contains_scalar, BsbfBuilder,
}
use snii.Format.Bsbf.RoundTrip.{serialize_lem, num_bytes-range, parse-packed_header, header_of}
use snii.Format.Bsbf.Header.{
  serialize, header_size, parse, packed_header, bitset, block_offset, bsbf_probe, store_le32,
  word_bytes,
}
use snii.Format.Bsbf.Filter.{bsbf_block_index_lem, IsBuilt}
use snii.Common.Status.{◌>>=◌, ok, Result}
use snii.Format.Bsbf.Sizes.{IsStored}

-- A block of a filter's bytes denies what the filter denies.
block_contains-word_bytes :
    (b : BsbfBuilder) (hash : ℕ)
    → IsBuilt b
    → b.num_blocks ≤ 2 ^ 29
    → hash < 2 ^ 64
    → block_contains_scalar hash
        (take 32 (drop (32 * bsbf_block_index hash b.num_blocks) (word_bytes b.words)))
      ≡ maybe_contains b hash
unfolding block_contains_scalar maybe_contains find_scalar masks_scalar
block_contains-word_bytes b hash v few h =
    rw (thirty_two, no_wrap)
      (block_loop-find_masks (masks_scalar (hash % 2 ^ 32)) b.words
        (bsbf_block_index hash b.num_blocks * 8) v.words32
        (omega (arith, v.sized, bsbf_block_index_lem hash b.num_blocks h v.some_blocks v.fits)))
  where
    thirty_two :
        32 * bsbf_block_index hash b.num_blocks ≡ 4 * (bsbf_block_index hash b.num_blocks * 8)
    thirty_two = omega arith

    no_wrap :
        first_word (bsbf_block_index hash b.num_blocks) ≡ bsbf_block_index hash b.num_blocks * 8
    no_wrap = omega (arith, bsbf_block_index_lem hash b.num_blocks h v.some_blocks v.fits)

bitset-whole : (b : BsbfBuilder) → IsStored b → bitset b ≡ word_bytes b.words
bitset-whole b v =
    take-all b.num_bytes (word_bytes b.words)
      (omega (arith, length-word_bytes b.words, v.built.sized, v.blocks))

length-packed_header : (b : BsbfBuilder) → length (packed_header b) ≡ 28
unfolding packed_header store_le32
length-packed_header b = refl

-- What FileReader::read_at does on a file of given bytes: a range within the file is returned whole.
pub record ReadsFile (read_at : ℕ → ℕ → Result (List ℕ)) (file : List ℕ) : Type 0 where
  pub within :
      (offset len : ℕ)
      → offset + len ≤ length file
      → read_at offset len ≡ ok (take len (drop offset file))

module _ (b : BsbfBuilder) (hash : ℕ) (v : IsStored b) (h : hash < 2 ^ 64) where
  abbrev block_start : ℕ
  block_start = 32 * bsbf_block_index hash b.num_blocks

  in_bits : block_start + 32 ≤ length (bitset b)
  in_bits = rw (bitset-whole b v) (
      omega (
        arith,
        length-word_bytes b.words,
        v.built.sized,
        bsbf_block_index_lem hash b.num_blocks h v.built.some_blocks v.built.fits,
      ))

  module _ (front back : List ℕ) where
    abbrev file_of : List ℕ
    file_of = front ++ (packed_header b ++ (bitset b ++ back))

    block_in_file :
        take 32 (drop (length front + (28 + block_start)) file_of)
        ≡ take 32 (drop block_start (word_bytes b.words))
    block_in_file =
        rw
          (
            drop-beyond front (packed_header b ++ (bitset b ++ back)) (28 + block_start),
            ← length-packed_header b,
            drop-beyond (packed_header b) (bitset b ++ back) block_start,
          )
          (rw (take-drop-within (bitset b) back block_start 32 in_bits)
            (rw (bitset-whole b v) refl))

    file_room : length front + (28 + block_start) + 32 ≤ length file_of
    file_room = omega (
      arith,
      length-append front (packed_header b ++ (bitset b ++ back)),
      length-append (packed_header b) (bitset b ++ back),
      length-append (bitset b) back,
      length-packed_header b,
      in_bits,
    )

    module _ (read_at : ℕ → ℕ → Result (List ℕ)) (reads : ReadsFile read_at file_of)
        (fits : length front + (28 + b.num_bytes) < 2 ^ 64) where
      probe_at : bsbf_probe read_at (header_of b (length front)) hash ≡ ok (maybe_contains b hash)
      unfolding bsbf_probe block_offset
      probe_at =
          rw
            (
              place,
              reads.within _ _ file_room,
              block_in_file,
              block_room,
              block_contains-word_bytes b hash v.built few h,
            )
            refl
        where
          few : b.num_blocks ≤ 2 ^ 29
          few = omega (arith, v.blocks, num_bytes-range b v)

          bits_end : block_start + 32 ≤ b.num_bytes
          bits_end = omega (
            arith,
            v.blocks,
            bsbf_block_index_lem hash b.num_blocks h v.built.some_blocks v.built.fits,
          )

          place :
              ((length front + header_size) % 2 ^ 64
                  + bsbf_block_index hash b.num_blocks * bytes_per_block)
                % 2 ^ 64
              ≡ length front + (28 + block_start)
          place = omega (arith, fits, bits_end)

          bits_whole : length (bitset b) ≡ length (word_bytes b.words)
          bits_whole = ap length (bitset-whole b v)

          block_room :
              ltb (length (take 32 (drop block_start (word_bytes b.words)))) bytes_per_block ≡ false
          block_room = le→ltb _ _ (
              omega (
                arith,
                length-take-within 32 (drop block_start (word_bytes b.words)) (
                    omega
                      (arith, length-drop block_start (word_bytes b.words), in_bits, bits_whole)),
              ))

module _ (b : BsbfBuilder) (front back : List ℕ) (v : IsStored b) where
  -- The header where serialize put it.
  header_in_file :
      take header_size (drop (length front) ((front ++ (packed_header b ++ bitset b)) ++ back))
      ≡ packed_header b
  header_in_file =
      rw
        (
          append_assoc front (packed_header b ++ bitset b) back,
          ← add-zero (length front),
          drop-beyond front ((packed_header b ++ bitset b) ++ back) 0,
          append_assoc (packed_header b) (bitset b) back,
          ← length-packed_header b,
        )
        (take-append (packed_header b) (bitset b ++ back))

-- A stored filter has a power of two of bytes from 32 bytes to 128 MiB, in whole blocks, and 32-bit
-- words and counts. serialize appends such a filter to what stands before it without an error, and if the
-- filter ends below 2 ^ 64, then on a file of those bytes with any bytes behind them, whose ranges
-- read_at returns whole, parse accepts the header that stands there and bsbf_probe with it answers what
-- the filter's maybe_contains answers for a 64-bit hash.
pub bsbf_probe-serialize :
    (read_at : List ℕ → ℕ → ℕ → Result (List ℕ)) (b : BsbfBuilder) (hash : ℕ) (front back : List ℕ)
    → IsStored b
    → hash < 2 ^ 64
    → ((file : List ℕ) → ReadsFile (read_at file) file)
    → length front + (28 + b.num_bytes) < 2 ^ 64
    → (serialize b front >>= λ written.
        parse (take header_size (drop (length front) (written ++ back))) (length front)
        >>= λ header. bsbf_probe (read_at (written ++ back)) header hash)
      ≡ ok (maybe_contains b hash)
bsbf_probe-serialize read_at b hash front back v h reads fits = rw (serialize_lem b front v) (
    rw (header_in_file b front back v, parsed)
      (rw whole (probe_at b hash v h front back (read_at _) (reads _) fits)))
  where
    parsed : parse (packed_header b) (length front) ≡ ok (header_of b (length front))
    parsed =
        let e = parse-packed_header b (length front) [] v in rw (append-nil (packed_header b)) at e

    whole :
        (front ++ (packed_header b ++ bitset b)) ++ back
        ≡ front ++ (packed_header b ++ (bitset b ++ back))
    whole = simp append_assoc
