-- ===== src/Format/TailMeta/Header.antt =====
-- The header of a tail meta region: TailMetaRegionBuilder::finish and TailMetaRegionReader::open of
-- core/src/format/tail_meta_region.cpp.
use snii.Common.{length-append, arith, ◌≡◌, length, ℕ, List, ◌++◌}
use snii.Encoding.Sink.{Put, ◌⨾◌, put_fixed32, put_fixed64}
use snii.Encoding.Source.{Get, ◌>>=◌, pure, get_fixed32, get_fixed64}
use snii.Common.Digits.{le_bytes, length-le_bytes}
use snii.Encoding.Varint.RoundTrip.{IsU32, IsU64}
use snii.Encoding.Codec.{Writes, Writes-⨾, Reads, Reads->>=, Reads-last, Reads-pure}
use snii.Encoding.Codec.Primitives.{
  Writes-put_fixed32, Writes-put_fixed64, Reads-get_fixed32, Reads-get_fixed64,
}

abbrev pub header_fields : ℕ
header_fields = 36

abbrev pub header_size : ℕ
header_size = 40

abbrev pub region_checksum_size : ℕ
region_checksum_size = 4

-- The fields that `open` reads into its local variables.
pub record RegionHeader : Type 0 where
  pub ver : ℕ
  pub flags : ℕ
  pub meta_region_len : ℕ
  pub n : ℕ
  pub directory_offset : ℕ
  pub directory_length : ℕ

unfoldable pub put_header : RegionHeader → Put
put_header h =
    put_fixed32 h.ver
    ⨾ put_fixed32 h.flags
    ⨾ put_fixed64 h.meta_region_len
    ⨾ put_fixed32 h.n
    ⨾ put_fixed64 h.directory_offset
    ⨾ put_fixed64 h.directory_length

unfoldable pub get_header : Get RegionHeader
get_header = do
  ver ← get_fixed32
  flags ← get_fixed32
  meta_region_len ← get_fixed64
  n ← get_fixed32
  directory_offset ← get_fixed64
  directory_length ← get_fixed64
  pure (record {
    ver = ver;
    flags = flags;
    meta_region_len = meta_region_len;
    n = n;
    directory_offset = directory_offset;
    directory_length = directory_length;
  })

pub record IsRegionHeader (h : RegionHeader) : Type 0 where
  pub ver : IsU32 h.ver
  pub flags : IsU32 h.flags
  pub meta_region_len : IsU64 h.meta_region_len
  pub n : IsU32 h.n
  pub directory_offset : IsU64 h.directory_offset
  pub directory_length : IsU64 h.directory_length

unfoldable pub header_bytes : RegionHeader → List ℕ
header_bytes h =
    le_bytes 4 h.ver
    ++ (le_bytes 4 h.flags
        ++ (le_bytes 8 h.meta_region_len
            ++ (le_bytes 4 h.n
                ++ (le_bytes 8 h.directory_offset ++ le_bytes 8 h.directory_length))))

pub length-header_bytes : (h : RegionHeader) → length (header_bytes h) ≡ header_fields
unfolding header_bytes
length-header_bytes h = omega (arith, length-append {0}, length-le_bytes)

pub Writes-put_header : (h : RegionHeader) → Writes (put_header h) (header_bytes h)
unfolding put_header header_bytes
Writes-put_header h = Writes-⨾ (Writes-put_fixed32 _) (
    Writes-⨾ (Writes-put_fixed32 _) (
      Writes-⨾ (Writes-put_fixed64 _)
        (Writes-⨾ (Writes-put_fixed32 _) (Writes-⨾ (Writes-put_fixed64 _) (Writes-put_fixed64 _)))))

pub Reads-get_header : (h : RegionHeader) → IsRegionHeader h → Reads get_header (header_bytes h) h
unfolding get_header header_bytes
Reads-get_header h v = Reads->>= _ _ (Reads-get_fixed32 _ v.ver) (
    Reads->>= _ _ (Reads-get_fixed32 _ v.flags) (
      Reads->>= _ _ (Reads-get_fixed64 _ v.meta_region_len) (
        Reads->>= _ _ (Reads-get_fixed32 _ v.n) (
          Reads->>= _ _ (Reads-get_fixed64 _ v.directory_offset)
            (Reads-last _ _ (Reads-get_fixed64 _ v.directory_length) (Reads-pure h))))))
