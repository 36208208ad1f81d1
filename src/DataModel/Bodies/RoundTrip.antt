-- ===== src/DataModel/Bodies/RoundTrip.antt =====
-- The bodies of operations are read back from their canonical encodings.
use fractonica.Common.{
  ℕ, suc, ◌==◌, ◌≡◌, refl, ◌∙◌, List, [], ◌∷◌, length, some, true, false, arith,
}
use fractonica.Common.Result.{Result, ok}
use fractonica.Trust.Errors.{TrustError}
use fractonica.Trust.Value.{CanonicalValue, unsigned, bytes, to_list-items}
use fractonica.DataModel.{
  EntitySchema, event, profile, record_schema, space_genesis, capability_grant, capability_revoke,
  tag, Outcome,
}
use fractonica.DataModel.Json.{Numbers}
use fractonica.DataModel.Documents.{
  RecordDocument, TagDocument, EventDocument, ProfileDocument, CapabilityGrant,
  CapabilityRevocation, ProtectedDocument, public_document, private_document, OperationBody,
  put_record, put_tag, put_event, put_profile, tombstone, genesis, grant_capability,
  revoke_capability_grant,
}
use fractonica.DataModel.Fields.Exact.{fixed_bytes-bytes}
use fractonica.DataModel.Metadata.RoundTrip.{Kind}
use fractonica.DataModel.Parts.{encode_protected, decode_protected}
use fractonica.DataModel.Parts.RoundTrip.{IsResource, AllOf, IsReread, protected_read}
use fractonica.DataModel.Encodings.{
  encode_record_document, decode_record_document, encode_tag_document, decode_tag_document,
  encode_event_document, decode_event_document,
}
use fractonica.DataModel.Encodings.RoundTrip.{
  IsRecord, IsTag, IsEvent, IsProfile, record_read, tag_read, event_read, profile_read,
}
use fractonica.DataModel.Capabilities.{decode_capability_grant, decode_capability_revocation}
use fractonica.DataModel.Capabilities.RoundTrip.{IsGrant, IsRevocation, grant_read, revocation_read}
use fractonica.DataModel.Bodies.{is_client, body, encode_body, decode_body}

-- The ranges that the types of the code give a payload.
abbrev pub IsPayload : {T : Type 0} → (T → Type 0) → ProtectedDocument T → Type 0
IsPayload IsDocument (public_document document) = IsDocument document
IsPayload IsDocument (private_document envelope resources) = AllOf IsResource resources

-- The body is one of those that entities of the schema have, its fields are in the ranges of the
-- types of the code, its times are not negative and its keys are public keys.
pub data IsBody (numbers : Numbers) (public_key : List ℕ → Result TrustError (Unit {0}))
    : EntitySchema → OperationBody numbers.Number → Type 0 where
  tombstone_of :
      (schema : EntitySchema) → is_client schema ≡ true → IsBody numbers public_key schema tombstone
  record_of :
      (payload : ProtectedDocument (RecordDocument numbers.Number))
      → IsPayload IsRecord payload
      → IsBody numbers public_key record_schema (put_record payload)
  tag_of :
      (payload : ProtectedDocument (TagDocument numbers.Number))
      → IsPayload IsTag payload
      → IsBody numbers public_key tag (put_tag payload)
  event_of :
      (payload : ProtectedDocument (EventDocument numbers.Number))
      → IsPayload IsEvent payload
      → IsBody numbers public_key event (put_event payload)
  profile_of :
      (document : ProfileDocument numbers.Number)
      → IsProfile document
      → IsBody numbers public_key profile (put_profile document)
  genesis_of :
      (controller : List ℕ)
      → length controller ≡ 32
      → public_key controller ≡ ok tt
      → IsBody numbers public_key space_genesis (genesis controller)
  grant_of :
      (grant : CapabilityGrant)
      → IsGrant public_key grant
      → IsBody numbers public_key capability_grant (grant_capability grant)
  revocation_of :
      (revocation : CapabilityRevocation)
      → IsRevocation revocation
      → IsBody numbers public_key capability_revoke (revoke_capability_grant revocation)

not_empty : (n : ℕ) → (suc n == 0) ≡ false
not_empty n = ground arith

module _ (numbers : Numbers) (kind : (n : numbers.Number) → Kind numbers n)
    (public_key : List ℕ → Result TrustError (Unit {0})) where
  open numbers use {Number}

  payload_read :
      {T : Type 0} (IsDocument : T → Type 0) (schema : EntitySchema)
      (encode : T → Outcome CanonicalValue) (decode : EntitySchema → CanonicalValue → Outcome T)
      (payload : ProtectedDocument T)
      → ((document : T) → IsDocument document → IsReread encode (decode schema) document)
      → IsPayload IsDocument payload
      → IsReread
          (λ p. encode_protected p encode)
          (λ v. decode_protected schema (some v) decode)
          payload
  payload_read IsDocument schema encode decode (public_document document) read h =
      protected_read schema encode decode (public_document document) (read document h)
  payload_read IsDocument schema encode decode (private_document envelope resources) read h =
      protected_read schema encode decode (private_document envelope resources) h

  client_tombstone :
      (schema : EntitySchema)
      → is_client schema ≡ true
      → decode_body numbers public_key schema (body 0 []) ≡ ok tombstone
  unfolding decode_body
  client_tombstone schema h = rw h refl

  decode_body-grant :
      (fields : List CanonicalValue)
      → decode_body numbers public_key capability_grant (body 6 fields)
        ≡ decode_capability_grant Number public_key capability_grant (unsigned 6 ∷ fields)
  unfolding decode_body
  decode_body-grant fields = rw (to_list-items fields) (rw (not_empty (length fields)) refl)

  decode_body-revocation :
      (fields : List CanonicalValue)
      → decode_body numbers public_key capability_revoke (body 7 fields)
        ≡ decode_capability_revocation Number public_key capability_revoke (unsigned 7 ∷ fields)
  unfolding decode_body
  decode_body-revocation fields = rw (to_list-items fields) (rw (not_empty (length fields)) refl)

  -- Every body of operations that entities of a schema have, with fields in the ranges of the
  -- types of the code, times that are not negative, sorted metadata and valid public keys, is
  -- written by encode_body, and decode_body reads it back from what is written. The numbers of
  -- JSON are of one of their three kinds.
  pub decode_body-encode_body :
      (schema : EntitySchema) (operation : OperationBody Number)
      → IsBody numbers public_key schema operation
      → (v : CanonicalValue) × (encode_body numbers schema operation ≡ ok v)
        × (decode_body numbers public_key schema v ≡ ok operation)
  unfolding encode_body decode_body
  decode_body-encode_body _ _ (record_of payload h) =
      let (v, p, q) =
        payload_read IsRecord record_schema (encode_record_document numbers)
          (decode_record_document numbers) payload (record_read numbers kind record_schema) h in
      (body 1 (v ∷ []), rw p refl, rw q refl)
  decode_body-encode_body _ _ (tag_of payload h) =
      let (v, p, q) =
        payload_read IsTag tag (encode_tag_document numbers) (decode_tag_document numbers) payload
          (tag_read numbers kind tag) h in
      (body 2 (v ∷ []), rw p refl, rw q refl)
  decode_body-encode_body _ _ (event_of payload h) =
      let (v, p, q) =
        payload_read IsEvent event (encode_event_document numbers) (decode_event_document numbers)
          payload (event_read numbers kind event) h in
      (body 3 (v ∷ []), rw p refl, rw q refl)
  decode_body-encode_body _ _ (profile_of document h) =
      let (v, p, q) = profile_read numbers kind profile document h in
      (body 4 (v ∷ []), rw p refl, rw q refl)
  decode_body-encode_body _ _ (genesis_of controller h k) = (
    body 5 (bytes controller ∷ []),
    refl,
    rw (fixed_bytes-bytes space_genesis 32 controller "genesis controller" h) (rw k refl),
  )
  decode_body-encode_body _ _ (grant_of grant h) =
      let (fields, p, q) = grant_read Number public_key capability_grant grant h in
      (body 6 fields, p, decode_body-grant fields ∙ q)
  decode_body-encode_body _ _ (revocation_of revocation h) =
      let (fields, p, q) = revocation_read Number public_key capability_revoke revocation h in
      (body 7 fields, p, decode_body-revocation fields ∙ q)
  decode_body-encode_body _ _ (tombstone_of schema h) =
      (body 0 [], rw h refl, client_tombstone schema h)
