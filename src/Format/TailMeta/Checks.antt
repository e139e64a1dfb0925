-- ===== src/Format/TailMeta/Checks.antt =====
-- The checks of TailMetaRegionReader::open on a region laid out from its parts.
use snii.Common.{
  ◌==◌, true, ℕ, ltb, false, ◌%◌, ◌^◌, ◌+◌, ◌-◌, ◌≡◌, refl, sym, arith, List, [], ◌++◌, length,
  length-append, take-drop-append, append_assoc, append-nil, ==_self, le→ltb,
}
use snii.Common.Digits.{le_bytes, length-le_bytes}
use snii.Common.Status.{ok}
use snii.Encoding.Source.{subslice, run_get, get_fixed32}
use snii.Encoding.Varint.RoundTrip.{IsU64}
use snii.Encoding.Crc32c.{crc32c, crc32c-lt}
use snii.Encoding.Codec.{run_get-Reads}
use snii.Encoding.Codec.Primitives.{Reads-get_fixed32}
use snii.Format.Constants.{meta_format_version}
use snii.Format.TailMeta.Header.{
  RegionHeader, IsRegionHeader, header_bytes, length-header_bytes, header_fields, header_size,
  Reads-get_header, get_header,
}
use snii.Format.TailMeta.{check_region, check_header}

stored_crc : (bs : List ℕ) → run_get get_fixed32 (le_bytes 4 (crc32c bs)) ≡ ok (crc32c bs)
stored_crc bs = run_get-Reads (Reads-get_fixed32 (crc32c bs) (crc32c-lt bs))

module _ (h : RegionHeader) (blocks dir : List ℕ) where
  unfoldable pub covered_bytes : List ℕ
  covered_bytes = header_bytes h ++ (le_bytes 4 (crc32c (header_bytes h)) ++ (blocks ++ dir))

  unfoldable pub region_bytes : List ℕ
  region_bytes = covered_bytes ++ le_bytes 4 (crc32c covered_bytes)

  pub length-region_bytes : length region_bytes ≡ header_size + length blocks + length dir + 4
  unfolding region_bytes covered_bytes
  length-region_bytes = omega (arith, length-append {0}, length-le_bytes, length-header_bytes h)

  -- Where the pieces stand that `open` takes.
  abbrev AtPiece : ℕ → ℕ → List ℕ → Type 0
  AtPiece off n piece = subslice region_bytes off n ≡ piece

  fields_at : AtPiece 0 header_fields (header_bytes h)
  unfolding region_bytes covered_bytes
  fields_at =
      let split : region_bytes
          ≡ header_bytes h
            ++ ((le_bytes 4 (crc32c (header_bytes h)) ++ (blocks ++ dir))
                ++ le_bytes 4 (crc32c covered_bytes)) =
        simp append_assoc in
      rw split
        (take-drop-append [] (header_bytes h) _ 0 header_fields refl (sym (length-header_bytes h)))

  header_crc_at : AtPiece header_fields 4 (le_bytes 4 (crc32c (header_bytes h)))
  unfolding region_bytes covered_bytes
  header_crc_at =
      let split : region_bytes
          ≡ header_bytes h
            ++ (le_bytes 4 (crc32c (header_bytes h))
                ++ ((blocks ++ dir) ++ le_bytes 4 (crc32c covered_bytes))) =
        simp append_assoc in
      rw split (
        take-drop-append (header_bytes h) (le_bytes 4 (crc32c (header_bytes h))) _ header_fields 4
          (sym (length-header_bytes h)) (sym (length-le_bytes 4 (crc32c (header_bytes h)))))

  pub dir_at : AtPiece (header_size + length blocks) (length dir) dir
  unfolding region_bytes covered_bytes
  dir_at =
      let split : region_bytes
          ≡ (header_bytes h ++ (le_bytes 4 (crc32c (header_bytes h)) ++ blocks))
            ++ (dir ++ le_bytes 4 (crc32c covered_bytes)) =
        simp append_assoc in
      rw split (
        take-drop-append (header_bytes h ++ (le_bytes 4 (crc32c (header_bytes h)) ++ blocks)) dir _
          _ _ (omega (arith, length-append {0}, length-le_bytes, length-header_bytes h)) refl)

  covered_at : AtPiece 0 (length region_bytes - 4) covered_bytes
  unfolding region_bytes
  covered_at =
      take-drop-append [] covered_bytes _ 0 _ refl
        (omega (arith, length-append {0}, length-le_bytes))

  crc_at : AtPiece (length region_bytes - 4) 4 (le_bytes 4 (crc32c covered_bytes))
  unfolding region_bytes
  crc_at =
      let split : region_bytes ≡ covered_bytes ++ (le_bytes 4 (crc32c covered_bytes) ++ []) =
        rw append-nil refl in
      let whole : subslice (covered_bytes ++ (le_bytes 4 (crc32c covered_bytes) ++ []))
            (length region_bytes - 4) 4
          ≡ le_bytes 4 (crc32c covered_bytes) =
        take-drop-append covered_bytes (le_bytes 4 (crc32c covered_bytes)) [] _ 4
          (omega (arith, length-append {0}, length-le_bytes))
          (sym (length-le_bytes 4 (crc32c covered_bytes))) in
      rw append-nil at whole

  pub check_region-region_bytes : check_region region_bytes ≡ ok tt
  unfolding check_region
  check_region-region_bytes =
      rw (crc_at, stored_crc covered_bytes, covered_at, ==_self (crc32c covered_bytes)) refl

  pub reads_header :
      IsRegionHeader h → run_get get_header (subslice region_bytes 0 header_fields) ≡ ok h
  reads_header v = rw fields_at (run_get-Reads (Reads-get_header h v))

  pub check_header-region_bytes :
      h.ver ≡ meta_format_version
      → h.meta_region_len ≡ length region_bytes
      → h.directory_offset ≡ header_size + length blocks
      → h.directory_length ≡ length dir
      → IsU64 (length region_bytes)
      → check_header region_bytes h ≡ ok tt
  unfolding check_header
  check_header-region_bytes ev el eo ed small =
      rw
        (
          header_crc_at,
          stored_crc (header_bytes h),
          fields_at,
          ==_self (crc32c (header_bytes h)),
          same_ver,
          same_len,
          inside,
          starts,
        )
        refl
    where
      same_ver : (h.ver == meta_format_version) ≡ true
      same_ver = ground (arith, ev)

      same_len : (h.meta_region_len == length region_bytes) ≡ true
      same_len = ground (arith, el)

      inside :
          ltb (length region_bytes) ((h.directory_offset + h.directory_length) % 2 ^ 64) ≡ false
      inside = le→ltb _ _ (omega (arith, eo, ed, small, length-region_bytes))

      starts : ltb h.directory_offset header_size ≡ false
      starts = le→ltb _ _ (omega (arith, eo))
