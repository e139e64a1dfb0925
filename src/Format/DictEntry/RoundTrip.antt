-- ===== src/Format/DictEntry/RoundTrip.antt =====
-- decode_dict_entry and skip_dict_entry of core/src/format/dict_entry.cpp on what encode_dict_entry
-- writes.
use snii.Encoding.Codec.Primitives.{
  Reads-get_varint64, Reads-get_bytes, Reads-get_u8, Writes-put_u8,
}
use snii.Common.{
  append_assoc, ℕ, ◌-◌, ◌≡◌, refl, arith, Bool, true, false, not, List, [], ◌∷◌, ◌++◌, length, ◌==◌,
  ltb, le→ltb, ==_self, length-append,
}
use snii.Encoding.Codec.{
  Reads-pure, ReadsAt, ReadsAt-reject, ReadsAt-last, ReadsAt-get_position, Reads→ReadsAt,
  ReadsAt→Reads, Reads->>=, Writes-⨾, Writes, Reads,
}
use snii.Encoding.Varint.{encode_varint64}
use snii.Format.DictEntry.Locator.{
  Writes-write_locator, Writes-put_blob, Reads-read_kind, locator_bytes, blob_bytes, with_locator,
  HasLocator,
}
use snii.Format.DictEntry.Region.{
  Reads-read_stats, Writes-write_stats, stats_bytes, HasStats, HasRegions, with_stats,
}
use snii.Encoding.Source.{Get, remaining, get_remaining, reject_if, pure, ◌>>◌, ◌>>=◌}
use snii.Format.DictEntry.Entry.{
  apply_flags-pack_flags, pack_flags, no_entry, tier_has_stats, DictEntry,
}
use snii.Format.SampledIndex.RoundTrip.{Reads-read_key, Writes-write_term_key, key_bytes, IsShort}
use snii.Encoding.Varint.RoundTrip.{IsU64}
use snii.Format.Constants.{IndexTier}
use snii.Format.DictEntry.Decode.{
  read_term_key, read_entry_len, decode_dict_entry, read_body, read_locator, skip_dict_entry,
}
use snii.Format.DictEntry.Encode.{write_body, encode_dict_entry}
use snii.Format.SampledIndex.{Term}

abbrev pub body_bytes : DictEntry → Term → Bool → List ℕ
body_bytes e prev stats =
    key_bytes e.term prev
    ++ ((pack_flags e ∷ []) ++ (stats_bytes e stats ++ locator_bytes e e.kind stats))

-- What an entry keeps of itself at a tier: the fields that are not written have their first values,
-- and a region's length on disk is computed.
abbrev pub stored_entry : DictEntry → Bool → DictEntry
stored_entry e stats = with_locator e e.kind stats (
    with_stats e stats
      (record no_entry { term = e.term; kind = e.kind; enc = e.enc; has_sb = e.has_sb }))

-- What the code that writes an entry relies on.
pub record IsEncodable (e : DictEntry) (prev : Term) (stats : Bool) : Type 0 where
  pub term : IsShort e.term
  pub stats_fit : HasStats e
  pub regions : HasRegions e stats
  pub locator : HasLocator e e.kind
  pub body : IsU64 (length (body_bytes e prev stats))

Writes-write_body :
    (e : DictEntry) (prev : Term) (stats : Bool)
    → Writes (write_body e prev stats) (body_bytes e prev stats)
unfolding write_body
Writes-write_body e prev stats = Writes-⨾ (Writes-write_term_key e.term prev) (
    Writes-⨾ (Writes-put_u8 _)
      (Writes-⨾ (Writes-write_stats e stats) (Writes-write_locator e e.kind stats)))

pub Writes-encode_dict_entry :
    (e : DictEntry) (prev : Term) (tier : IndexTier)
    → Writes (encode_dict_entry e prev tier) (blob_bytes (body_bytes e prev (tier_has_stats tier)))
unfolding encode_dict_entry
Writes-encode_dict_entry e prev tier =
    rw ((Writes-write_body e prev (tier_has_stats tier)).run []) (Writes-put_blob _)

with_stats-enc : (e out : DictEntry) (stats : Bool) → (with_stats e stats out).enc ≡ out.enc
with_stats-enc e out false = refl
with_stats-enc e out true = refl

with_stats-kind : (e out : DictEntry) (stats : Bool) → (with_stats e stats out).kind ≡ out.kind
with_stats-kind e out false = refl
with_stats-kind e out true = refl

Reads-read_locator :
    (e : DictEntry) (stats : Bool) (out : DictEntry)
    → HasLocator e e.kind
    → HasRegions e stats
    → out.enc ≡ e.enc
    → out.kind ≡ e.kind
    → Reads
        (read_locator stats out)
        (locator_bytes e e.kind stats)
        (with_locator e e.kind stats out)
unfolding read_locator
Reads-read_locator e stats out v r same kind =
    simp kind (Reads-read_kind e e.kind stats out v r same)

Reads-read_body :
    (e : DictEntry) (prev : Term) (stats : Bool)
    → IsEncodable e prev stats
    → Reads (read_body prev stats) (body_bytes e prev stats) (stored_entry e stats)
unfolding read_body read_term_key
Reads-read_body e prev stats v = Reads->>= _ _ (Reads-read_key _ e.term prev v.term) (
    Reads->>= _ _ (Reads-get_u8 _) (
      rw (apply_flags-pack_flags e (record no_entry { term = e.term })) (
        Reads->>= _ _ (Reads-read_stats e stats _ v.stats_fit) (
          Reads-read_locator e stats _ v.locator v.regions (with_stats-enc e _ stats)
            (with_stats-kind e _ stats)))))

-- The length in front of an entry, where the entry follows.
ReadsAt-read_entry_len :
    {B : Type 0} {front : List ℕ} (f : ℕ → Get B) (body : List ℕ) {b : B}
    → IsU64 (length body)
    → ReadsAt (front ++ encode_varint64 (length body)) (f (length body)) body b
    → ReadsAt front (read_entry_len >>= f) (blob_bytes body) b
unfolding read_entry_len ◌>>=◌ ◌>>◌ pure reject_if get_remaining remaining
ReadsAt-read_entry_len {front} f body h r = record {
  run = λ rest.
      rw
        (
          append_assoc (encode_varint64 (length body)) body rest,
          (Reads-get_varint64 _ h).run front (body ++ rest),
          fits rest,
          ← append_assoc front (encode_varint64 (length body)) body,
        )
        (r.run rest);
}
  where
    head : List ℕ
    head = front ++ encode_varint64 (length body)

    fits :
        (rest : List ℕ) → ltb (length (head ++ (body ++ rest)) - length head) (length body) ≡ false
    fits rest =
        le→ltb _ _ (omega (arith, length-append head (body ++ rest), length-append body rest))

-- An entry that is encoded against a previous term is read back by decode_dict_entry with the same
-- previous term and tier, wherever it stands, and nothing behind it is taken: the fields that the tier
-- and the kind store come back, the others have their first values; if its fields fit their types, the
-- document part lies within the bytes that hold it (frq_docs_len <= frq_len for a pod_ref entry,
-- inline_dd_disk_len <= the size of frq_bytes for an inline one), and no frequency region is marked as
-- compressed at a tier without statistics.
pub decode_dict_entry-encode_dict_entry :
    (e : DictEntry) (prev : Term) (tier : IndexTier)
    → IsEncodable e prev (tier_has_stats tier)
    → Reads
        (decode_dict_entry prev tier)
        (encode_dict_entry e prev tier [])
        (stored_entry e (tier_has_stats tier))
unfolding decode_dict_entry
decode_dict_entry-encode_dict_entry e prev tier v =
    rw ((Writes-encode_dict_entry e prev tier).run []) (
      ReadsAt→Reads (λ front. ReadsAt-read_entry_len _ _ v.body (
        ReadsAt-get_position _ (
          ReadsAt-last _ _ (Reads→ReadsAt _ (Reads-read_body e prev (tier_has_stats tier) v)) (
            ReadsAt-get_position _ (
              ReadsAt-reject _ (whole (front ++ encode_varint64 (length body)))
                (Reads→ReadsAt _ (Reads-pure _))))))))
  where
    body : List ℕ
    body = body_bytes e prev (tier_has_stats tier)

    whole : (head : List ℕ) → not (length (head ++ body) - length head == length body) ≡ false
    whole head = rw (gap, ==_self (length body)) refl
      where
        gap : length (head ++ body) - length head ≡ length body
        gap = omega (arith, length-append head body)

-- skip_dict_entry takes the encoded entry, no more and no less, and returns its body, whatever the
-- previous term and the tier were.
pub skip_dict_entry-encode_dict_entry :
    (e : DictEntry) (prev : Term) (tier : IndexTier)
    → IsU64 (length (body_bytes e prev (tier_has_stats tier)))
    → Reads skip_dict_entry
        (encode_dict_entry e prev tier [])
        (body_bytes e prev (tier_has_stats tier))
unfolding skip_dict_entry
skip_dict_entry-encode_dict_entry e prev tier h =
    rw ((Writes-encode_dict_entry e prev tier).run [])
      (ReadsAt→Reads (λ front. ReadsAt-read_entry_len _ _ h (Reads→ReadsAt _ (Reads-get_bytes _))))
