-- ===== src/Format/PerIndexMeta/Header.antt =====
-- encode_header and decode_header of core/src/format/per_index_meta.cpp
use snii.Common.{
  ℕ, ◌-◌, ◌*◌, ◌%◌, ◌^◌, ◌≤◌, ◌≡◌, refl, arith, List, [], ◌++◌, length, length-append, append_assoc,
  append-nil, ltb, le→ltb, false, ◌==◌, ==_self, ◌||◌, not,
}
use snii.Common.Digits.{le_bytes}
use snii.Common.Status.{corruption}
use snii.Encoding.Varint.{encode_varint64}
use snii.Encoding.Varint.RoundTrip.{IsU64, IsU32}
use snii.Encoding.Sink.{Put, ◌⨾◌, put_fixed16, put_fixed32, put_varint32, put_varint64, put_bytes}
use snii.Encoding.Source.{
  Get, ◌>>=◌, ◌>>◌, pure, reject_if, get_position, get_remaining, get_slice_from, get_fixed16,
  get_fixed32, get_varint32, get_varint64, get_bytes,
}
use snii.Encoding.Crc32c.{crc32c, crc32c-lt}
use snii.Encoding.Codec.{
  Writes, Writes-⨾, Reads, Reads-reject, Reads-pure, ReadsAt, ReadsAt->>=, ReadsAt-reject,
  ReadsAt-get_remaining, ReadsAt-get_position, ReadsAt-get_slice_from, Reads→ReadsAt, ReadsAt→Reads,
}
use snii.Encoding.Codec.Primitives.{
  Writes-put_fixed16, Writes-put_fixed32, Writes-put_varint32, Writes-put_varint64,
  Writes-put_bytes, Reads-get_fixed16, Reads-get_fixed32, Reads-get_varint32, Reads-get_varint64,
  Reads-get_bytes,
}
use snii.Format.Constants.{meta_format_version}

pub record MetaHeader : Type 0 where
  pub index_id : ℕ
  pub index_suffix : List ℕ
  pub flags : ℕ

abbrev pub max_suffix_len : ℕ
max_suffix_len = 64 * 1024

-- The temporary sink that the checksum is taken over.
unfoldable pub header_view : ℕ → List ℕ → ℕ → List ℕ
header_view index_id suffix flags =
    (put_fixed16 meta_format_version
        ⨾ put_varint64 index_id
        ⨾ put_varint32 (length suffix % 2 ^ 32)
        ⨾ put_bytes suffix
        ⨾ put_fixed32 flags)
      []

unfoldable pub encode_header : ℕ → List ℕ → ℕ → Put
encode_header index_id suffix flags =
    let head = header_view index_id suffix flags in put_bytes head ⨾ put_fixed32 (crc32c head)

unfoldable pub decode_header : Get MetaHeader
decode_header = do
  start ← get_position
  version ← get_fixed16
  reject_if (not (version == meta_format_version))
      (corruption "per_index_meta: unsupported meta_format_version")
  index_id ← get_varint64
  suffix_len ← get_varint32
  left ← get_remaining
  reject_if (ltb max_suffix_len suffix_len || ltb left suffix_len)
      (corruption "per_index_meta: suffix_len exceeds bounds")
  suffix ← get_bytes suffix_len
  flags ← get_fixed32
  now ← get_position
  stored ← get_fixed32
  covered ← get_slice_from start (now - start)
  reject_if (not (crc32c covered == stored)) (corruption "per_index_meta: header crc mismatch")
  pure (record { index_id = index_id; index_suffix = suffix; flags = flags })

pub record IsHeader (h : MetaHeader) : Type 0 where
  pub index_id : IsU64 h.index_id
  pub suffix_len : length h.index_suffix ≤ max_suffix_len
  pub flags : IsU32 h.flags

unfoldable pub head_bytes : MetaHeader → List ℕ
head_bytes h =
    le_bytes 2 meta_format_version
    ++ (encode_varint64 h.index_id
        ++ (encode_varint64 (length h.index_suffix) ++ (h.index_suffix ++ le_bytes 4 h.flags)))

unfoldable pub header_bytes : MetaHeader → List ℕ
header_bytes h = head_bytes h ++ le_bytes 4 (crc32c (head_bytes h))

header_view-head_bytes :
    (h : MetaHeader)
    → IsU32 (length h.index_suffix)
    → header_view h.index_id h.index_suffix h.flags ≡ head_bytes h
unfolding header_view head_bytes
header_view-head_bytes h v = rw small (
    (Writes-⨾ (Writes-put_fixed16 meta_format_version) (
        Writes-⨾ (Writes-put_varint64 h.index_id) (
          Writes-⨾ (Writes-put_varint32 (length h.index_suffix))
            (Writes-⨾ (Writes-put_bytes h.index_suffix) (Writes-put_fixed32 h.flags))))).run
      [])
  where
    small : length h.index_suffix % 2 ^ 32 ≡ length h.index_suffix
    small = omega arith

pub Writes-encode_header :
    (h : MetaHeader)
    → IsU32 (length h.index_suffix)
    → Writes (encode_header h.index_id h.index_suffix h.flags) (header_bytes h)
unfolding encode_header header_bytes
Writes-encode_header h v =
    rw (header_view-head_bytes h v)
      (Writes-⨾ (Writes-put_bytes (head_bytes h)) (Writes-put_fixed32 (crc32c (head_bytes h))))

Reads-decode_header_at :
    (h : MetaHeader) (front : List ℕ) → IsHeader h → ReadsAt front decode_header (header_bytes h) h
unfolding decode_header
Reads-decode_header_at h front v = rw layout (
    ReadsAt-get_position _ (
      ReadsAt->>= _ _ (Reads→ReadsAt _ (Reads-get_fixed16 meta_format_version (omega arith))) (
        ReadsAt-reject _ refl (
          ReadsAt->>= _ _ (Reads→ReadsAt _ (Reads-get_varint64 h.index_id v.index_id)) (
            ReadsAt->>= _ _
              (Reads→ReadsAt _
                (Reads-get_varint32 (length h.index_suffix) (omega (arith, v.suffix_len))))
              (ReadsAt-get_remaining _ λ m le.
                ReadsAt-reject _ (bounds m (omega (arith, length-append {0}, le))) (
                  ReadsAt->>= _ _ (Reads→ReadsAt _ (Reads-get_bytes h.index_suffix)) (
                    ReadsAt->>= _ _ (Reads→ReadsAt _ (Reads-get_fixed32 h.flags v.flags)) (
                      ReadsAt-get_position _ (
                        ReadsAt->>= _ _
                          (Reads→ReadsAt _
                            (Reads-get_fixed32 (crc32c (head_bytes h)) (crc32c-lt (head_bytes h))))
                          (ReadsAt-get_slice_from front (head_bytes h)
                            (le_bytes 4 (crc32c (head_bytes h))) _ _ together span
                            (Reads→ReadsAt _
                              (Reads-reject _ (rw ==_self refl) (Reads-pure h))))))))))))))
  where
    version : List ℕ
    version = le_bytes 2 meta_format_version

    id : List ℕ
    id = encode_varint64 h.index_id

    len : List ℕ
    len = encode_varint64 (length h.index_suffix)

    flags : List ℕ
    flags = le_bytes 4 h.flags

    stored : List ℕ
    stored = le_bytes 4 (crc32c (head_bytes h))

    bounds :
        (m : ℕ)
        → length h.index_suffix ≤ m
        → (ltb max_suffix_len (length h.index_suffix) || ltb m (length h.index_suffix)) ≡ false
    bounds m le = rw (le→ltb _ _ v.suffix_len) (le→ltb m _ le)

    layout :
        header_bytes h ≡ version ++ (id ++ (len ++ (h.index_suffix ++ (flags ++ (stored ++ [])))))
    layout = unfold header_bytes head_bytes in simp (append_assoc, append-nil)

    together :
        (((((front ++ version) ++ id) ++ len) ++ h.index_suffix) ++ flags) ++ stored
        ≡ front ++ (head_bytes h ++ stored)
    together = unfold head_bytes in simp append_assoc

    span :
        length (((((front ++ version) ++ id) ++ len) ++ h.index_suffix) ++ flags) - length front
        ≡ length (head_bytes h)
    span = unfold head_bytes in omega (arith, length-append {0})

-- decode_header gives back the header that encode_header wrote.
pub Reads-decode_header : (h : MetaHeader) → IsHeader h → Reads decode_header (header_bytes h) h
Reads-decode_header h v = ReadsAt→Reads (λ front. Reads-decode_header_at h front v)
