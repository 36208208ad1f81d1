-- ===== src/DataModel/Encodings.antt =====
-- canonical.rs: the documents of records, tags, events and profiles.
pub mod RoundTrip
use fractonica.Common.{[], ◌∷◌, get_elem?, Option, none, some}
use fractonica.Common.Result.{ok, ◌>>=◌}
use fractonica.Trust.Value.{CanonicalValue, null, unsigned, text, array, items}
use fractonica.DataModel.{EntitySchema, Outcome}
use fractonica.DataModel.Json.{Numbers}
use fractonica.DataModel.Documents.{
  RecordDocument, TagDocument, EventDocument, ProfileDocument, ResourceRef,
}
use fractonica.DataModel.Fields.{
  required, unsigned_field, nonnegative_i64, optional_nonnegative_i64, text_field,
  decode_optional_text, nonnegative_integer, signed_integer, decode_signed_integer,
  optional_nonnegative_integer, optional_text, exact_array, try_from,
}
use fractonica.DataModel.Metadata.{encode_metadata_object, decode_metadata_object}
use fractonica.DataModel.Parts.{
  encode_resource, decode_resource, encode_all, decode_resources, encode_references,
  decode_references,
}

abbrev pub encode_avatar : Option ResourceRef → CanonicalValue
encode_avatar none = null
encode_avatar (some resource) = encode_resource resource

abbrev pub decode_avatar : EntitySchema → CanonicalValue → Outcome (Option ResourceRef)
decode_avatar schema null = ok none
decode_avatar schema value = decode_resource schema value >>= λ resource. ok (some resource)

module _ (numbers : Numbers) where
  open numbers use {Number}

  unfoldable pub encode_record_document : RecordDocument Number → Outcome CanonicalValue
  unfolding nonnegative_integer optional_nonnegative_integer optional_text encode_metadata_object
      encode_all encode_resource encode_references
  encode_record_document document = do
    start ← nonnegative_integer document.start_at_unix_ms
    end_at ← optional_nonnegative_integer document.end_at_unix_ms
    metadata ← encode_metadata_object numbers document.metadata
    ok (
        array (
          items (
            start
            ∷ end_at
            ∷ optional_text document.emoji
            ∷ optional_text document.text
            ∷ metadata
            ∷ array (items (encode_all encode_resource document.resources))
            ∷ encode_references document.references
            ∷ [])))

  unfoldable pub decode_record_document :
      EntitySchema → CanonicalValue → Outcome (RecordDocument Number)
  unfolding exact_array nonnegative_i64 optional_nonnegative_i64 decode_optional_text
      decode_metadata_object decode_resources decode_references
  decode_record_document schema value = do
    fields ← exact_array schema value 7 "record document"
    start ← nonnegative_i64 schema (get_elem? fields 0) "record start"
    end_at ← optional_nonnegative_i64 schema (get_elem? fields 1) "record end"
    emoji ← decode_optional_text schema (get_elem? fields 2) "record emoji"
    content ← decode_optional_text schema (get_elem? fields 3) "record text"
    metadata ← decode_metadata_object numbers schema (get_elem? fields 4)
    resources ← decode_resources schema (get_elem? fields 5)
    references ← decode_references schema (get_elem? fields 6)
    ok (record {
      start_at_unix_ms = start;
      end_at_unix_ms = end_at;
      emoji = emoji;
      text = content;
      metadata = metadata;
      resources = resources;
      references = references;
    })

  unfoldable pub encode_tag_document : TagDocument Number → Outcome CanonicalValue
  unfolding optional_text encode_metadata_object encode_references
  encode_tag_document document = do
    metadata ← encode_metadata_object numbers document.metadata
    ok (
        array (
          items (
            text document.name
            ∷ optional_text document.emoji
            ∷ optional_text document.notes
            ∷ optional_text document.color_hex
            ∷ metadata
            ∷ encode_references document.references
            ∷ [])))

  unfoldable pub decode_tag_document : EntitySchema → CanonicalValue → Outcome (TagDocument Number)
  unfolding exact_array text_field decode_optional_text decode_metadata_object decode_references
  decode_tag_document schema value = do
    fields ← exact_array schema value 6 "tag document"
    name ← text_field schema (get_elem? fields 0) "tag name"
    emoji ← decode_optional_text schema (get_elem? fields 1) "tag emoji"
    notes ← decode_optional_text schema (get_elem? fields 2) "tag notes"
    color_hex ← decode_optional_text schema (get_elem? fields 3) "tag color"
    metadata ← decode_metadata_object numbers schema (get_elem? fields 4)
    references ← decode_references schema (get_elem? fields 5)
    ok (record {
      name = name;
      emoji = emoji;
      notes = notes;
      color_hex = color_hex;
      metadata = metadata;
      references = references;
    })

  unfoldable pub encode_event_document : EventDocument Number → Outcome CanonicalValue
  unfolding nonnegative_integer optional_nonnegative_integer signed_integer encode_metadata_object
      encode_references
  encode_event_document document = do
    start ← nonnegative_integer document.start_at_unix_ms
    end_at ← optional_nonnegative_integer document.end_at_unix_ms
    metadata ← encode_metadata_object numbers document.metadata
    ok (
        array (
          items (
            start
            ∷ end_at
            ∷ text document.label
            ∷ signed_integer document.type_number
            ∷ metadata
            ∷ encode_references document.references
            ∷ [])))

  unfoldable pub decode_event_document :
      EntitySchema → CanonicalValue → Outcome (EventDocument Number)
  unfolding exact_array nonnegative_i64 optional_nonnegative_i64 text_field decode_signed_integer
      decode_metadata_object decode_references
  decode_event_document schema value = do
    fields ← exact_array schema value 6 "event document"
    start ← nonnegative_i64 schema (get_elem? fields 0) "event start"
    end_at ← optional_nonnegative_i64 schema (get_elem? fields 1) "event end"
    label ← text_field schema (get_elem? fields 2) "event label"
    type_number ← decode_signed_integer schema (get_elem? fields 3) "event type"
    metadata ← decode_metadata_object numbers schema (get_elem? fields 4)
    references ← decode_references schema (get_elem? fields 5)
    ok (record {
      start_at_unix_ms = start;
      end_at_unix_ms = end_at;
      label = label;
      type_number = type_number;
      metadata = metadata;
      references = references;
    })

  unfoldable pub encode_profile_document : ProfileDocument Number → Outcome CanonicalValue
  unfolding encode_resource encode_metadata_object
  encode_profile_document document = do
    metadata ← encode_metadata_object numbers document.metadata
    ok (
        array (
          items (
            text document.handle
            ∷ text document.display_name
            ∷ unsigned document.saros_anchor
            ∷ encode_avatar document.avatar
            ∷ metadata
            ∷ [])))

  unfoldable pub decode_profile_document :
      EntitySchema → Option CanonicalValue → Outcome (ProfileDocument Number)
  unfolding required exact_array decode_resource text_field unsigned_field decode_metadata_object
  decode_profile_document schema value = do
    present ← required schema value "profile document"
    fields ← exact_array schema present 5 "profile document"
    shown ← required schema (get_elem? fields 3) "profile avatar"
    avatar ← decode_avatar schema shown
    handle ← text_field schema (get_elem? fields 0) "profile handle"
    display_name ← text_field schema (get_elem? fields 1) "profile display name"
    anchor ← unsigned_field schema (get_elem? fields 2) "profile Saros anchor"
    saros_anchor ← try_from schema 65536 "profile Saros anchor exceeds u16" anchor
    metadata ← decode_metadata_object numbers schema (get_elem? fields 4)
    ok (record {
      handle = handle;
      display_name = display_name;
      saros_anchor = saros_anchor;
      avatar = avatar;
      metadata = metadata;
    })
