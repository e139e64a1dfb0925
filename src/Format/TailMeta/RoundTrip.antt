-- ===== src/Format/TailMeta/RoundTrip.antt =====
-- TailMetaRegionBuilder::finish with open and find of TailMetaRegionReader
-- (core/src/format/tail_meta_region.cpp).
use snii.Common.{
  ℕ, ◌+◌, ◌%◌, ◌^◌, ◌≡◌, refl, arith, List, [], ◌++◌, length, length-append, ltb, le→ltb, false,
  ==_self, All, append_assoc,
}
use snii.Common.Digits.{le_bytes, length-le_bytes}
use snii.Common.Status.{ok, ◌>>=◌}
use snii.Encoding.Varint.RoundTrip.{IsU32, IsU64}
use snii.Encoding.Sink.{put_bytes}
use snii.Encoding.Crc32c.{crc32c}
use snii.Encoding.Codec.{Writes-⨾}
use snii.Encoding.Codec.Primitives.{Writes-put_bytes, Writes-put_fixed32}
use snii.Encoding.Codec.Many.{Writes-put_many}
use snii.Format.Constants.{meta_format_version}
use snii.Format.IndexDirectory
use snii.Format.IndexDirectory.RoundTrip.{open_index_directory-finish}
use snii.Format.TailMeta.{
  block_at, Entry, Builder, Reader, no_directory, fields_of, covered_of, region_of, finish,
  open_region, find,
}
use snii.Format.TailMeta.Header.{
  RegionHeader, IsRegionHeader, header_size, header_bytes, length-header_bytes, Writes-put_header,
}
use snii.Format.TailMeta.Checks.{
  covered_bytes, region_bytes, length-region_bytes, check_region-region_bytes, reads_header,
  check_header-region_bytes, dir_at,
}
use snii.Format.TailMeta.Layout.{
  block_bytes, blocks_of, laid_refs, lay_out-laid_refs, length-laid_refs, IsEntry,
  laid_refs-IsIndexRef, find_block, block_at-find_loop,
}

-- The entries fit their types, and so do their count and the region's size.
pub record IsBuilder (b : Builder) : Type 0 where
  pub entries : All IsEntry b.entries
  pub count : IsU32 (length b.entries)
  pub blocks : IsU64 (header_size + length (blocks_of b.entries))
  pub size : IsU64 (length (finish b []))

module _ (b : Builder) where
  abbrev blocks : List ℕ
  blocks = blocks_of b.entries

  abbrev refs_builder : IndexDirectory.Builder
  refs_builder = record { refs = laid_refs b.entries header_size }

  abbrev dir_bytes : List ℕ
  dir_bytes = IndexDirectory.finish refs_builder []

  abbrev header_of : RegionHeader
  header_of = record {
    ver = meta_format_version;
    flags = 0;
    meta_region_len = (header_size + length blocks + length dir_bytes + 4) % 2 ^ 64;
    n = length b.entries % 2 ^ 32;
    directory_offset = header_size + length blocks;
    directory_length = length dir_bytes;
  }

  abbrev pub laid_region : List ℕ
  laid_region = region_bytes header_of blocks dir_bytes

  covered-bytes :
      covered_of b (header_bytes header_of) dir_bytes ≡ covered_bytes header_of blocks dir_bytes
  unfolding covered_of covered_bytes
  covered-bytes =
      (Writes-⨾ (Writes-put_bytes (header_bytes header_of)) (
          Writes-⨾ (Writes-put_fixed32 (crc32c (header_bytes header_of))) (
            Writes-⨾
              (Writes-put_many block_bytes (λ (e : Entry). put_bytes e.bytes)
                (λ e. Writes-put_bytes e.bytes) b.entries)
              (Writes-put_bytes dir_bytes)))).run
        []

  finish-laid_region : IsU64 (header_size + length blocks) → finish b [] ≡ laid_region
  unfolding finish fields_of region_of region_bytes
  finish-laid_region h =
      rw
        (
          lay_out-laid_refs b.entries header_size no_directory h,
          (Writes-put_header header_of).run [],
          covered-bytes,
          (Writes-put_fixed32 (crc32c (covered_bytes header_of blocks dir_bytes))).run
              (covered_bytes header_of blocks dir_bytes),
        )
        ((Writes-put_bytes laid_region).run [])

  abbrev opened : Reader
  opened = record {
    region = laid_region;
    dir = record { refs = laid_refs b.entries header_size };
    n = length b.entries;
  }

  module _ (v : IsBuilder b) where
    region_size : IsU64 (length laid_region)
    region_size =
        let whole : IsU64 (length (finish b [])) = v.size in
        rw (finish-laid_region v.blocks) at whole

    total : length laid_region ≡ header_size + length blocks + length dir_bytes + 4
    total = length-region_bytes header_of blocks dir_bytes

    declared : (header_size + length blocks + length dir_bytes + 4) % 2 ^ 64 ≡ length laid_region
    declared = omega (arith, region_size, total)

    small_count : length b.entries % 2 ^ 32 ≡ length b.entries
    small_count = omega (arith, v.count)

    header_fits : IsRegionHeader header_of
    header_fits = record {
      ver = omega arith;
      flags = omega arith;
      meta_region_len = omega arith;
      n = omega arith;
      directory_offset = v.blocks;
      directory_length = omega (arith, region_size, total);
    }

    opens_directory :
        IndexDirectory.open_directory dir_bytes
        ≡ ok (record { refs = laid_refs b.entries header_size })
    opens_directory =
        open_index_directory-finish refs_builder
          (rw (length-laid_refs b.entries header_size) v.count)
          (laid_refs-IsIndexRef b.entries header_size v.entries v.blocks)
          (omega (arith, region_size, total))

    opens : open_region laid_region ≡ ok opened
    unfolding open_region IndexDirectory.size
    opens =
        rw
          (
            long,
            check_region-region_bytes header_of blocks dir_bytes,
            reads_header header_of blocks dir_bytes header_fits,
            check_header-region_bytes header_of blocks dir_bytes refl declared refl refl
                region_size,
            dir_at header_of blocks dir_bytes,
            opens_directory,
            length-laid_refs b.entries header_size,
            ==_self (length b.entries % 2 ^ 32),
            small_count,
          )
          refl
      where
        long : ltb (length laid_region) 44 ≡ false
        long = le→ltb _ _ (omega (arith, total))

    abbrev head : List ℕ
    head = header_bytes header_of ++ le_bytes 4 (crc32c (header_bytes header_of))

    abbrev behind : List ℕ
    behind = dir_bytes ++ le_bytes 4 (crc32c (covered_bytes header_of blocks dir_bytes))

    split : laid_region ≡ head ++ (blocks ++ behind)
    split = unfold region_bytes covered_bytes in simp append_assoc

    length-head : length head ≡ header_size
    length-head = omega (arith, length-append {0}, length-le_bytes, length-header_bytes header_of)

    finds :
        (index_id : ℕ) (suffix : List ℕ)
        → find opened index_id suffix ≡ ok (find_block b.entries index_id suffix)
    unfolding find IndexDirectory.find
    finds index_id suffix =
        let found : block_at (head ++ (blocks ++ behind))
              (IndexDirectory.find_loop (laid_refs b.entries (length head)) index_id suffix)
            ≡ ok (find_block b.entries index_id suffix) =
          block_at-find_loop b.entries head behind index_id suffix (rw split at region_size) in
        rw split (rw length-head at found)

-- TailMetaRegionReader::open accepts the region that TailMetaRegionBuilder::finish wrote, and find on
-- that reader gives for every key the block of the builder's first entry under it, and nothing where no
-- entry has the key; if the entries fit their types and the region's size fits 64 bits.
pub find-finish :
    (b : Builder) (index_id : ℕ) (suffix : List ℕ)
    → IsBuilder b
    → (open_region (finish b []) >>= λ r. find r index_id suffix)
      ≡ ok (find_block b.entries index_id suffix)
find-finish b index_id suffix v =
    rw (finish-laid_region b v.blocks, opens b v) (finds b v index_id suffix)
