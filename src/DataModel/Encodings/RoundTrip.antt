-- ===== src/DataModel/Encodings/RoundTrip.antt =====
-- The documents of records, tags, events and profiles are read back from their encodings.
use fractonica.Common.{◌<◌, ◌≡◌, refl, ap, Option, none, some, ◌∷◌, []}
use fractonica.Common.Int.{IsI64}
use fractonica.Common.Result.{ok, ◌>>=◌}
use fractonica.Trust.Value.{unsigned, text, array, items}
use fractonica.DataModel.{EntitySchema}
use fractonica.DataModel.Json.{Numbers}
use fractonica.DataModel.Documents.{
  RecordDocument, TagDocument, EventDocument, ProfileDocument, ResourceRef,
}
use fractonica.DataModel.Fields.{optional_text, signed_integer}
use fractonica.DataModel.Fields.Exact.{
  IsTime, IsOptionalTime, time_value, optional_time_value, try_from-ok, nonnegative_integer-IsTime,
  optional_nonnegative_integer-IsTime, nonnegative_i64-time_value,
  optional_nonnegative_i64-time_value, decode_signed_integer-signed_integer,
  decode_optional_text-optional_text,
}
use fractonica.DataModel.Metadata.Sorted.{IsObject}
use fractonica.DataModel.Metadata.RoundTrip.{Kind, metadata_read}
use fractonica.DataModel.Parts.{encode_resource, encode_all, encode_references}
use fractonica.DataModel.Parts.RoundTrip.{
  IsResource, IsTarget, AllOf, IsReread, decode_resource-encode_resource,
  decode_references-encode_references, decode_resources-encode_all,
}
use fractonica.DataModel.Encodings.{
  encode_avatar, decode_avatar, encode_record_document, decode_record_document, encode_tag_document,
  decode_tag_document, encode_event_document, decode_event_document, encode_profile_document,
  decode_profile_document,
}

abbrev pub IsAvatar : Option ResourceRef → Type 0
IsAvatar none = Unit {0}
IsAvatar (some resource) = IsResource resource

module _ {Number : Type 0} where
  pub record IsRecord (document : RecordDocument Number) : Type 0 where
    pub start_in : IsTime document.start_at_unix_ms
    pub end_in : IsOptionalTime document.end_at_unix_ms
    pub metadata_sorted : IsObject document.metadata
    pub resource_ids : AllOf IsResource document.resources
    pub reference_ids : AllOf (λ r. IsTarget r.target) document.references

  pub record IsTag (document : TagDocument Number) : Type 0 where
    pub metadata_sorted : IsObject document.metadata
    pub reference_ids : AllOf (λ r. IsTarget r.target) document.references

  pub record IsEvent (document : EventDocument Number) : Type 0 where
    pub start_in : IsTime document.start_at_unix_ms
    pub end_in : IsOptionalTime document.end_at_unix_ms
    pub type_in : IsI64 document.type_number
    pub metadata_sorted : IsObject document.metadata
    pub reference_ids : AllOf (λ r. IsTarget r.target) document.references

  pub record IsProfile (document : ProfileDocument Number) : Type 0 where
    pub anchor_in : document.saros_anchor < 65536
    pub avatar_id : IsAvatar document.avatar
    pub metadata_sorted : IsObject document.metadata

module _ (numbers : Numbers) (kind : (n : numbers.Number) → Kind numbers n)
    (schema : EntitySchema) where
  open numbers use {Number}

  pub record_read :
      (document : RecordDocument Number)
      → IsRecord document
      → IsReread (encode_record_document numbers) (decode_record_document numbers schema) document
  unfolding encode_record_document decode_record_document
  record_read document h =
      let (e, p, q) = metadata_read numbers kind document.metadata h.metadata_sorted in
      (
        array (
            items (
              time_value document.start_at_unix_ms
              ∷ optional_time_value document.end_at_unix_ms
              ∷ optional_text document.emoji
              ∷ optional_text document.text
              ∷ e
              ∷ array (items (encode_all encode_resource document.resources))
              ∷ encode_references document.references
              ∷ [])),
        rw (nonnegative_integer-IsTime document.start_at_unix_ms h.start_in)
            (rw (optional_nonnegative_integer-IsTime document.end_at_unix_ms h.end_in) (rw p refl)),
        rw (nonnegative_i64-time_value schema document.start_at_unix_ms "record start" h.start_in) (
            rw
              (optional_nonnegative_i64-time_value schema document.end_at_unix_ms "record end"
                h.end_in)
              (rw (decode_optional_text-optional_text schema document.emoji "record emoji") (
                rw (decode_optional_text-optional_text schema document.text "record text") (
                  rw (q schema) (
                    rw (decode_resources-encode_all schema document.resources h.resource_ids) (
                      rw
                        (decode_references-encode_references schema document.references
                          h.reference_ids)
                        refl)))))),
      )

  pub tag_read :
      (document : TagDocument Number)
      → IsTag document
      → IsReread (encode_tag_document numbers) (decode_tag_document numbers schema) document
  unfolding encode_tag_document decode_tag_document
  tag_read document h =
      let (e, p, q) = metadata_read numbers kind document.metadata h.metadata_sorted in
      (
        array (
            items (
              text document.name
              ∷ optional_text document.emoji
              ∷ optional_text document.notes
              ∷ optional_text document.color_hex
              ∷ e
              ∷ encode_references document.references
              ∷ [])),
        rw p refl,
        rw (decode_optional_text-optional_text schema document.emoji "tag emoji") (
            rw (decode_optional_text-optional_text schema document.notes "tag notes") (
              rw (decode_optional_text-optional_text schema document.color_hex "tag color") (
                rw (q schema) (
                  rw
                    (decode_references-encode_references schema document.references h.reference_ids)
                    refl)))),
      )

  pub event_read :
      (document : EventDocument Number)
      → IsEvent document
      → IsReread (encode_event_document numbers) (decode_event_document numbers schema) document
  unfolding encode_event_document decode_event_document
  event_read document h =
      let (e, p, q) = metadata_read numbers kind document.metadata h.metadata_sorted in
      (
        array (
            items (
              time_value document.start_at_unix_ms
              ∷ optional_time_value document.end_at_unix_ms
              ∷ text document.label
              ∷ signed_integer document.type_number
              ∷ e
              ∷ encode_references document.references
              ∷ [])),
        rw (nonnegative_integer-IsTime document.start_at_unix_ms h.start_in)
            (rw (optional_nonnegative_integer-IsTime document.end_at_unix_ms h.end_in) (rw p refl)),
        rw (nonnegative_i64-time_value schema document.start_at_unix_ms "event start" h.start_in) (
            rw
              (optional_nonnegative_i64-time_value schema document.end_at_unix_ms "event end"
                h.end_in)
              (rw
                (decode_signed_integer-signed_integer schema document.type_number "event type"
                  h.type_in)
                (rw (q schema) (
                  rw
                    (decode_references-encode_references schema document.references h.reference_ids)
                    refl)))),
      )

  decode_avatar-encode_avatar :
      (avatar : Option ResourceRef)
      → IsAvatar avatar
      → decode_avatar schema (encode_avatar avatar) ≡ ok avatar
  unfolding encode_resource
  decode_avatar-encode_avatar none h = refl
  decode_avatar-encode_avatar (some resource) h =
      ap (λ r. r >>= λ resource. ok (some resource))
        (decode_resource-encode_resource schema resource h)

  pub profile_read :
      (document : ProfileDocument Number)
      → IsProfile document
      → IsReread
          (encode_profile_document numbers)
          (λ v. decode_profile_document numbers schema (some v))
          document
  unfolding encode_profile_document decode_profile_document
  profile_read document h =
      let (e, p, q) = metadata_read numbers kind document.metadata h.metadata_sorted in
      (
        array (
            items (
              text document.handle
              ∷ text document.display_name
              ∷ unsigned document.saros_anchor
              ∷ encode_avatar document.avatar
              ∷ e
              ∷ [])),
        rw p refl,
        rw (decode_avatar-encode_avatar document.avatar h.avatar_id) (
            rw
              (try_from-ok schema 65536 "profile Saros anchor exceeds u16" document.saros_anchor
                h.anchor_in)
              (rw (q schema) refl)),
      )
