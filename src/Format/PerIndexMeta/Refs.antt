-- ===== src/Format/PerIndexMeta/Refs.antt =====
-- RegionRef and SectionRefs of core/include/snii/format/per_index_meta.h and their encoding.
use snii.Common.{ℕ, ◌≤◌, ◌≡◌, arith, List, [], ◌++◌, length, length-append}
use snii.Common.Status.{Result, ok, corrupt}
use snii.Encoding.Varint.{encode_varint64}
use snii.Encoding.Varint.RoundTrip.{IsU64}
use snii.Encoding.Varint.Shape.{encode_varint64_shape}
use snii.Encoding.Sink.{Put, ◌⨾◌, put_varint64}
use snii.Encoding.Source.{Slice, Get, ◌>>=◌, pure, full_get, get_varint64}
use snii.Encoding.Codec.{Writes, Writes-⨾, Reads, Reads->>=, Reads-last, Reads-pure}
use snii.Encoding.Codec.Primitives.{Writes-put_varint64, Reads-get_varint64}
use snii.Encoding.Codec.Many.{full_get-Reads}
use snii.Encoding.Framer.{write_section}
use snii.Encoding.Framer.RoundTrip.{section_bytes, Writes-write_section}
use snii.Format.Constants.{section_refs_type}

pub record RegionRef : Type 0 where
  pub offset : ℕ
  pub length : ℕ

pub record SectionRefs : Type 0 where
  pub dict_region : RegionRef
  pub posting_region : RegionRef
  pub norms : RegionRef
  pub null_bitmap : RegionRef
  pub bsbf : RegionRef

abbrev no_region : RegionRef
no_region = record { offset = 0; length = 0 }

abbrev pub no_refs : SectionRefs
no_refs = record {
  dict_region = no_region;
  posting_region = no_region;
  norms = no_region;
  null_bitmap = no_region;
  bsbf = no_region;
}

unfoldable pub encode_region : RegionRef → Put
encode_region r = put_varint64 r.offset ⨾ put_varint64 r.length

unfoldable pub decode_region : Get RegionRef
decode_region = do
  offset ← get_varint64
  length ← get_varint64
  pure (record { offset = offset; length = length })

unfoldable pub section_refs_payload : SectionRefs → Put
section_refs_payload refs =
    encode_region refs.dict_region
    ⨾ encode_region refs.posting_region
    ⨾ encode_region refs.norms
    ⨾ encode_region refs.null_bitmap
    ⨾ encode_region refs.bsbf

unfoldable pub encode_section_refs : SectionRefs → Put
encode_section_refs refs = write_section section_refs_type (section_refs_payload refs [])

unfoldable pub get_section_refs : Get SectionRefs
get_section_refs = do
  dict_region ← decode_region
  posting_region ← decode_region
  norms ← decode_region
  null_bitmap ← decode_region
  bsbf ← decode_region
  pure (record {
    dict_region = dict_region;
    posting_region = posting_region;
    norms = norms;
    null_bitmap = null_bitmap;
    bsbf = bsbf;
  })

unfoldable pub decode_section_refs : Slice → Result SectionRefs
decode_section_refs payload =
    full_get get_section_refs (corrupt "per_index_meta: trailing bytes in section_refs") payload

abbrev pub IsRegion : RegionRef → Type 0
IsRegion r = IsU64 r.offset × IsU64 r.length

pub record IsSectionRefs (refs : SectionRefs) : Type 0 where
  pub dict_region : IsRegion refs.dict_region
  pub posting_region : IsRegion refs.posting_region
  pub norms : IsRegion refs.norms
  pub null_bitmap : IsRegion refs.null_bitmap
  pub bsbf : IsRegion refs.bsbf

abbrev region_bytes : RegionRef → List ℕ
region_bytes r = encode_varint64 r.offset ++ encode_varint64 r.length

Writes-encode_region : (r : RegionRef) → Writes (encode_region r) (region_bytes r)
unfolding encode_region
Writes-encode_region r = Writes-⨾ (Writes-put_varint64 _) (Writes-put_varint64 _)

Reads-decode_region : (r : RegionRef) → IsRegion r → Reads decode_region (region_bytes r) r
unfolding decode_region
Reads-decode_region r (vo, vl) =
    Reads->>= _ _ (Reads-get_varint64 _ vo)
      (Reads-last _ _ (Reads-get_varint64 _ vl) (Reads-pure r))

length-region_bytes : (r : RegionRef) → IsRegion r → length (region_bytes r) ≤ 20
length-region_bytes r (vo, vl) = omega (
  arith,
  length-append {0},
  (encode_varint64_shape r.offset vo).2,
  (encode_varint64_shape r.length vl).2,
)

abbrev pub refs_bytes : SectionRefs → List ℕ
refs_bytes refs =
    region_bytes refs.dict_region
    ++ (region_bytes refs.posting_region
        ++ (region_bytes refs.norms ++ (region_bytes refs.null_bitmap ++ region_bytes refs.bsbf)))

pub length-refs_bytes : (refs : SectionRefs) → IsSectionRefs refs → length (refs_bytes refs) ≤ 100
length-refs_bytes refs v = omega (
  arith,
  length-append (region_bytes refs.dict_region) (
      region_bytes refs.posting_region
      ++ (region_bytes refs.norms ++ (region_bytes refs.null_bitmap ++ region_bytes refs.bsbf))),
  length-append (region_bytes refs.posting_region)
      (region_bytes refs.norms ++ (region_bytes refs.null_bitmap ++ region_bytes refs.bsbf)),
  length-append (region_bytes refs.norms) (region_bytes refs.null_bitmap ++ region_bytes refs.bsbf),
  length-append (region_bytes refs.null_bitmap) (region_bytes refs.bsbf),
  length-region_bytes refs.dict_region v.dict_region,
  length-region_bytes refs.posting_region v.posting_region,
  length-region_bytes refs.norms v.norms,
  length-region_bytes refs.null_bitmap v.null_bitmap,
  length-region_bytes refs.bsbf v.bsbf,
)

Writes-section_refs_payload :
    (refs : SectionRefs) → Writes (section_refs_payload refs) (refs_bytes refs)
unfolding section_refs_payload
Writes-section_refs_payload refs = Writes-⨾ (Writes-encode_region _) (
    Writes-⨾ (Writes-encode_region _) (
      Writes-⨾ (Writes-encode_region _)
        (Writes-⨾ (Writes-encode_region _) (Writes-encode_region _))))

pub Writes-encode_section_refs :
    (refs : SectionRefs)
    → Writes (encode_section_refs refs) (section_bytes section_refs_type (refs_bytes refs))
unfolding encode_section_refs
Writes-encode_section_refs refs =
    rw ((Writes-section_refs_payload refs).run [])
      (Writes-write_section section_refs_type (refs_bytes refs))

pub decode_section_refs_bytes :
    (refs : SectionRefs) → IsSectionRefs refs → decode_section_refs (refs_bytes refs) ≡ ok refs
unfolding decode_section_refs get_section_refs
decode_section_refs_bytes refs v = full_get-Reads _ (
    Reads->>= _ _ (Reads-decode_region _ v.dict_region) (
      Reads->>= _ _ (Reads-decode_region _ v.posting_region) (
        Reads->>= _ _ (Reads-decode_region _ v.norms) (
          Reads->>= _ _ (Reads-decode_region _ v.null_bitmap)
            (Reads-last _ _ (Reads-decode_region _ v.bsbf) (Reads-pure refs))))))
