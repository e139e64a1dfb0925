-- ===== src/Format/DictEntry/Locator.antt =====
-- The locator of a dictionary entry (core/src/format/dict_entry.cpp): what is written and read.
use snii.Encoding.Sink.{◌⨾◌, put_varint64, put_nothing}
use snii.Common.{
  arith, ℕ, ◌≡◌, ◌≤◌, ◌-◌, refl, Bool, true, false, List, [], ◌++◌, length, le→ltb, if◌then◌else◌,
}
use snii.Encoding.Varint.{encode_varint64}
use snii.Encoding.Varint.RoundTrip.{IsU64}
use snii.Encoding.Codec.{
  Writes, Writes-⨾, Writes-nothing, Reads, Reads->>=, Reads-last, Reads-reject, Reads-pure,
}
use snii.Encoding.Codec.Primitives.{
  Writes-put_bytes, Writes-put_varint64, Reads-get_varint64, Reads-get_bytes,
}
use snii.Format.DictEntry.Entry.{
  DictEntry, DictEntryKind, pod_ref, inline, DictEntryEnc, slim, windowed,
}
use snii.Format.DictEntry.Encode.{
  write_pod_enc, write_pod_ref, put_blob, write_inline, write_locator,
}
use snii.Format.DictEntry.Decode.{
  read_pod_enc, read_prx_ref, read_pod_ref, read_byte_blob, read_prx_bytes, read_inline, read_kind,
}
use snii.Format.DictEntry.Region.{
  HasRegions, meta_bytes, with_regions, Writes-write_region_meta, Reads-read_region_meta,
}

-- A length and its bytes.
abbrev pub blob_bytes : List ℕ → List ℕ
blob_bytes bytes = encode_varint64 (length bytes) ++ bytes

pub Writes-put_blob : (bytes : List ℕ) → Writes (put_blob bytes) (blob_bytes bytes)
unfolding put_blob
Writes-put_blob bytes = Writes-⨾ (Writes-put_varint64 _) (Writes-put_bytes bytes)

Reads-read_byte_blob :
    (bytes : List ℕ) → IsU64 (length bytes) → Reads read_byte_blob (blob_bytes bytes) bytes
unfolding read_byte_blob
Reads-read_byte_blob bytes h = Reads->>= _ _ (Reads-get_varint64 _ h) (Reads-get_bytes bytes)

module _ (e : DictEntry) where
  -- What the code that reads the entry checks or relies on: a region within the bytes that hold both.
  pub record HasPodRef : Type 0 where
    pub frq_off_delta : IsU64 e.frq_off_delta
    pub frq_len : IsU64 e.frq_len
    pub prelude_len : IsU64 e.prelude_len
    pub frq_docs_len : IsU64 e.frq_docs_len
    pub docs_in_frq : e.frq_docs_len ≤ e.frq_len
    pub prx_off_delta : IsU64 e.prx_off_delta
    pub prx_len : IsU64 e.prx_len

  pub record HasInline : Type 0 where
    pub frq_size : IsU64 (length e.frq_bytes)
    pub dd_disk_len : IsU64 e.inline_dd_disk_len
    pub dd_in_frq : e.inline_dd_disk_len ≤ length e.frq_bytes
    pub prx_size : IsU64 (length e.prx_bytes)

  abbrev pod_enc_bytes : DictEntryEnc → Bool → List ℕ
  pod_enc_bytes windowed stats = encode_varint64 e.prelude_len
  pod_enc_bytes slim stats = encode_varint64 e.frq_docs_len ++ meta_bytes e stats true

  abbrev prx_ref_bytes : Bool → List ℕ
  prx_ref_bytes true = encode_varint64 e.prx_off_delta ++ encode_varint64 e.prx_len
  prx_ref_bytes false = []

  abbrev pub with_pod_enc : DictEntryEnc → Bool → DictEntry → DictEntry
  with_pod_enc windowed stats out = record out { prelude_len = e.prelude_len }
  with_pod_enc slim stats out =
      with_regions e stats true e.frq_docs_len (out.frq_len - e.frq_docs_len)
        (record out { frq_docs_len = e.frq_docs_len })

  abbrev pub with_prx_ref : Bool → DictEntry → DictEntry
  with_prx_ref true out = record out { prx_off_delta = e.prx_off_delta; prx_len = e.prx_len }
  with_prx_ref false out = out

  Writes-write_pod_enc :
      (c : DictEntryEnc) (stats : Bool) → Writes (write_pod_enc c e stats) (pod_enc_bytes c stats)
  Writes-write_pod_enc windowed stats = Writes-put_varint64 _
  Writes-write_pod_enc slim stats =
      Writes-⨾ (Writes-put_varint64 _) (Writes-write_region_meta e stats true)

  Reads-read_pod_enc :
      (c : DictEntryEnc) (stats : Bool) (out : DictEntry)
      → HasPodRef
      → HasRegions e stats
      → out.frq_len ≡ e.frq_len
      → Reads (read_pod_enc c stats out) (pod_enc_bytes c stats) (with_pod_enc c stats out)
  Reads-read_pod_enc windowed stats out v r same =
      Reads-last _ _ (Reads-get_varint64 _ v.prelude_len) (Reads-pure _)
  Reads-read_pod_enc slim stats out v r same = Reads->>= _ _ (Reads-get_varint64 _ v.frq_docs_len) (
      Reads-reject _ (le→ltb _ _ (omega (arith, same, v.docs_in_frq)))
        (Reads-read_region_meta e stats true e.frq_docs_len _ _ r))

  Writes-prx_ref :
      (stats : Bool)
      → Writes
          (if stats then put_varint64 e.prx_off_delta ⨾ put_varint64 e.prx_len else put_nothing)
          (prx_ref_bytes stats)
  Writes-prx_ref true = Writes-⨾ (Writes-put_varint64 _) (Writes-put_varint64 _)
  Writes-prx_ref false = Writes-nothing

  Reads-read_prx_ref :
      (stats : Bool) (out : DictEntry)
      → HasPodRef
      → Reads (read_prx_ref stats out) (prx_ref_bytes stats) (with_prx_ref stats out)
  Reads-read_prx_ref true out v =
      Reads->>= _ _ (Reads-get_varint64 _ v.prx_off_delta)
        (Reads-last _ _ (Reads-get_varint64 _ v.prx_len) (Reads-pure _))
  Reads-read_prx_ref false out v = Reads-pure out

  abbrev prx_bytes : Bool → List ℕ
  prx_bytes true = blob_bytes e.prx_bytes
  prx_bytes false = []

  abbrev pub with_prx_bytes : Bool → DictEntry → DictEntry
  with_prx_bytes true out = record out { prx_bytes = e.prx_bytes }
  with_prx_bytes false out = out

  Writes-prx_bytes :
      (stats : Bool)
      → Writes (if stats then put_blob e.prx_bytes else put_nothing) (prx_bytes stats)
  Writes-prx_bytes true = Writes-put_blob _
  Writes-prx_bytes false = Writes-nothing

  Reads-read_prx_bytes :
      (stats : Bool) (out : DictEntry)
      → HasInline
      → Reads (read_prx_bytes stats out) (prx_bytes stats) (with_prx_bytes stats out)
  Reads-read_prx_bytes true out v =
      Reads-last _ _ (Reads-read_byte_blob _ v.prx_size) (Reads-pure _)
  Reads-read_prx_bytes false out v = Reads-pure out

  -- `out` with the locator of a kind.
  abbrev pub with_locator : DictEntryKind → Bool → DictEntry → DictEntry
  with_locator pod_ref stats out = with_prx_ref stats (
      with_pod_enc out.enc stats
        (record out { frq_off_delta = e.frq_off_delta; frq_len = e.frq_len }))
  with_locator inline stats out = with_prx_bytes stats (
      with_regions e stats false e.inline_dd_disk_len (length e.frq_bytes - e.inline_dd_disk_len)
        (record out { frq_bytes = e.frq_bytes; inline_dd_disk_len = e.inline_dd_disk_len }))

  abbrev pub locator_bytes : DictEntryKind → Bool → List ℕ
  locator_bytes pod_ref stats =
      encode_varint64 e.frq_off_delta
      ++ (encode_varint64 e.frq_len ++ (pod_enc_bytes e.enc stats ++ prx_ref_bytes stats))
  locator_bytes inline stats =
      blob_bytes e.frq_bytes
      ++ (encode_varint64 e.inline_dd_disk_len ++ (meta_bytes e stats false ++ prx_bytes stats))

  pub Writes-write_locator :
      (k : DictEntryKind) (stats : Bool) → Writes (write_locator k e stats) (locator_bytes k stats)
  unfolding write_pod_ref write_inline
  Writes-write_locator pod_ref stats = Writes-⨾ (Writes-put_varint64 _) (
      Writes-⨾ (Writes-put_varint64 _)
        (Writes-⨾ (Writes-write_pod_enc e.enc stats) (Writes-prx_ref stats)))
  Writes-write_locator inline stats = Writes-⨾ (Writes-put_blob _) (
      Writes-⨾ (Writes-put_varint64 _)
        (Writes-⨾ (Writes-write_region_meta e stats false) (Writes-prx_bytes stats)))

  abbrev pub HasLocator : DictEntryKind → Type 0
  HasLocator pod_ref = HasPodRef
  HasLocator inline = HasInline

  pub Reads-read_kind :
      (k : DictEntryKind) (stats : Bool) (out : DictEntry)
      → HasLocator k
      → HasRegions e stats
      → out.enc ≡ e.enc
      → Reads (read_kind k stats out) (locator_bytes k stats) (with_locator k stats out)
  unfolding read_pod_ref read_inline snii.Format.DictEntry.Encode.pack_win_mode
  Reads-read_kind pod_ref stats out v r same =
      Reads->>= _ _ (Reads-get_varint64 _ v.frq_off_delta) (
        Reads->>= _ _ (Reads-get_varint64 _ v.frq_len) (
          rw (← same) (
            Reads->>= _ _ (Reads-read_pod_enc out.enc stats _ v r refl)
              (Reads-read_prx_ref stats _ v))))
  Reads-read_kind inline stats out v r same = Reads->>= _ _ (Reads-read_byte_blob _ v.frq_size) (
      Reads->>= _ _ (Reads-get_varint64 _ v.dd_disk_len) (
        Reads-reject _ (le→ltb _ _ v.dd_in_frq) (
          Reads->>= _ _ (Reads-read_region_meta e stats false e.inline_dd_disk_len _ _ r)
            (Reads-read_prx_bytes stats _ v))))
