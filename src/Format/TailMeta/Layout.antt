-- ===== src/Format/TailMeta/Layout.antt =====
-- Where TailMetaRegionBuilder::finish puts the blocks, and what `find` of core/src/format/tail_meta_region.cpp takes there.
use snii.Common.{
  ℕ, ◌+◌, ◌%◌, ◌^◌, ◌≡◌, refl, sym, arith, List, [], ◌∷◌, ◌++◌, Option, some, none, length,
  length-append, append_assoc, append-nil, take-drop-append, All, Bool-cases, inl, inr, ltb, le→ltb,
  false, ◌==◌, ◌&&◌, if◌then◌else◌, bytes_eq,
}
use snii.Common.Status.{ok}
use snii.Encoding.Varint.RoundTrip.{IsU32, IsU64}
use snii.Encoding.Codec.Many.{concat_map}
use snii.Format.IndexDirectory
use snii.Format.IndexDirectory.{LogicalIndexRef, find_loop}
use snii.Format.IndexDirectory.RoundTrip.{IsIndexRef}
use snii.Format.TailMeta.{Entry, ref_of, lay_out, block_at}

abbrev pub block_bytes : Entry → List ℕ
block_bytes e = e.bytes

abbrev pub blocks_of : List Entry → List ℕ
blocks_of es = concat_map block_bytes es

-- The references of blocks that stand one after the other from `offset` on.
unfoldable pub laid_refs : List Entry → ℕ → List LogicalIndexRef
laid_refs [] offset = []
laid_refs (e ∷ es) offset = ref_of e offset ∷ laid_refs es (offset + length e.bytes)

abbrev pub extend : IndexDirectory.Builder → List LogicalIndexRef → IndexDirectory.Builder
extend dir refs = record { refs = dir.refs ++ refs }

pub lay_out-laid_refs :
    (es : List Entry) (offset : ℕ) (dir : IndexDirectory.Builder)
    → IsU64 (offset + length (blocks_of es))
    → lay_out es offset dir ≡ (extend dir (laid_refs es offset), offset + length (blocks_of es))
unfolding lay_out laid_refs IndexDirectory.add
lay_out-laid_refs [] offset dir h = rw (append-nil dir.refs, plus_zero) refl
  where
    plus_zero : offset + 0 ≡ offset
    plus_zero = omega arith
lay_out-laid_refs (e ∷ es) offset dir h =
    rw (small, lay_out-laid_refs es (offset + length e.bytes) _ fits, ends, append_assoc) refl
  where
    small : (offset + length e.bytes) % 2 ^ 64 ≡ offset + length e.bytes
    small = omega (arith, length-append e.bytes (blocks_of es))

    fits : IsU64 (offset + length e.bytes + length (blocks_of es))
    fits = omega (arith, length-append e.bytes (blocks_of es))

    ends :
        offset + length e.bytes + length (blocks_of es) ≡ offset + length (e.bytes ++ blocks_of es)
    ends = omega (arith, length-append e.bytes (blocks_of es))

pub length-laid_refs : (es : List Entry) (offset : ℕ) → length (laid_refs es offset) ≡ length es
unfolding laid_refs
length-laid_refs [] offset = refl
length-laid_refs (e ∷ es) offset = omega (arith, length-laid_refs es (offset + length e.bytes))

pub record IsEntry (e : Entry) : Type 0 where
  pub index_id : IsU64 e.index_id
  pub suffix_len : IsU32 (length e.suffix)

pub laid_refs-IsIndexRef :
    (es : List Entry) (offset : ℕ)
    → All IsEntry es
    → IsU64 (offset + length (blocks_of es))
    → All IsIndexRef (laid_refs es offset)
unfolding laid_refs
laid_refs-IsIndexRef [] offset v h = tt
laid_refs-IsIndexRef (e ∷ es) offset (ve, ves) h = (
  record {
    index_id = ve.index_id;
    suffix_len = ve.suffix_len;
    meta_off = omega arith;
    meta_len = omega (arith, length-append e.bytes (blocks_of es));
  },
  laid_refs-IsIndexRef es (offset + length e.bytes) ves
      (omega (arith, length-append e.bytes (blocks_of es))),
)

-- The block of the first entry under a key.
unfoldable pub find_block : List Entry → ℕ → List ℕ → Option (List ℕ)
find_block [] index_id suffix = none
find_block (e ∷ es) index_id suffix =
    let rest = find_block es index_id suffix in
    if (e.index_id == index_id) && bytes_eq e.suffix suffix then some e.bytes else rest

-- A block that stands in the region is in range.
block_at-piece :
    (front bytes tail : List ℕ) (ref : LogicalIndexRef)
    → IsU64 (length (front ++ (bytes ++ tail)))
    → ref.meta_off ≡ length front
    → ref.meta_len ≡ length bytes
    → block_at (front ++ (bytes ++ tail)) (some ref) ≡ ok (some bytes)
unfolding block_at
block_at-piece front bytes tail ref h eo el =
    rw (inside, take-drop-append front bytes tail ref.meta_off ref.meta_len eo el) refl
  where
    inside :
        ltb (length (front ++ (bytes ++ tail))) ((ref.meta_off + ref.meta_len) % 2 ^ 64) ≡ false
    inside = le→ltb _ _ (omega (arith, eo, el, h, length-append {0}))

pub block_at-find_loop :
    (es : List Entry) (front tail : List ℕ) (index_id : ℕ) (suffix : List ℕ)
    → IsU64 (length (front ++ (blocks_of es ++ tail)))
    → block_at
        (front ++ (blocks_of es ++ tail))
        (find_loop (laid_refs es (length front)) index_id suffix)
      ≡ ok (find_block es index_id suffix)
unfolding find_loop laid_refs find_block
block_at-find_loop [] front tail index_id suffix h = unfold block_at in refl
block_at-find_loop (e ∷ es) front tail index_id suffix h =
    elim (Bool-cases ((e.index_id == index_id) && bytes_eq e.suffix suffix)) [
      | inl hit ↦
          rw (hit, append_assoc e.bytes (blocks_of es) tail)
            (block_at-piece front e.bytes (blocks_of es ++ tail) (ref_of e (length front)) fits refl
              refl)
      | inr miss ↦ rw miss (
          moved (
            block_at-find_loop es (front ++ e.bytes) tail index_id suffix
              (rw (append_assoc front e.bytes (blocks_of es ++ tail)) fits)))
    ]
  where
    fits : IsU64 (length (front ++ (e.bytes ++ (blocks_of es ++ tail))))
    fits = rw (append_assoc e.bytes (blocks_of es) tail) at h

    moved :
        block_at
            ((front ++ e.bytes) ++ (blocks_of es ++ tail))
            (find_loop (laid_refs es (length (front ++ e.bytes))) index_id suffix)
          ≡ ok (find_block es index_id suffix)
        → block_at
            (front ++ ((e.bytes ++ blocks_of es) ++ tail))
            (find_loop (laid_refs es (length front + length e.bytes)) index_id suffix)
          ≡ ok (find_block es index_id suffix)
    moved r =
        rw
          (
            append_assoc front e.bytes (blocks_of es ++ tail),
            length-append front e.bytes,
            sym (append_assoc e.bytes (blocks_of es) tail),
          )
          at r
