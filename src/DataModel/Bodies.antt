-- ===== src/DataModel/Bodies.antt =====
-- canonical.rs: `encode_body` and `decode_body`, with the documents that they hold. The numbers of JSON
-- and the check of public keys, which Ed25519 decides, are parameters.
pub mod RoundTrip
use fractonica.Common.{
  ℕ, ◌==◌, ◌&&◌, Bool, true, false, List, [], ◌∷◌, length, get_elem?, if◌then◌else◌,
}
use fractonica.Common.Result.{Result, ok, err, ◌>>=◌, ◌>>◌}
use fractonica.Trust.Errors.{TrustError}
use fractonica.Trust.Value.{CanonicalValue, unsigned, bytes, array, items}
use fractonica.DataModel.{
  trusted, EntitySchema, event, profile, record_schema, space_genesis, capability_grant,
  capability_revoke, tag, schema_body_mismatch, Outcome,
}
use fractonica.DataModel.Json.{Numbers}
use fractonica.DataModel.Documents.{
  OperationBody, put_record, put_tag, put_event, put_profile, tombstone, genesis, grant_capability,
  revoke_capability_grant,
}
use fractonica.DataModel.Fields.{invalid, unsigned_field, fixed_bytes, body_array}
use fractonica.DataModel.Parts.{encode_protected, decode_protected}
use fractonica.DataModel.Encodings.{
  encode_record_document, decode_record_document, encode_tag_document, decode_tag_document,
  encode_event_document, decode_event_document, encode_profile_document, decode_profile_document,
}
use fractonica.DataModel.Capabilities.{
  encode_capability_grant, decode_capability_grant, encode_capability_revocation,
  decode_capability_revocation,
}

-- `CanonicalValue::Array` of a kind and what follows it.
abbrev pub body : ℕ → List CanonicalValue → CanonicalValue
body kind fields = array (items (unsigned kind ∷ fields))

-- The schemas whose entities clients put and delete.
abbrev pub is_client : EntitySchema → Bool
is_client record_schema = true
is_client tag = true
is_client event = true
is_client profile = true
is_client space_genesis = false
is_client capability_grant = false
is_client capability_revoke = false

module _ (numbers : Numbers) where
  open numbers use {Number}

  unfoldable pub encode_body : EntitySchema → OperationBody Number → Outcome CanonicalValue
  unfolding encode_protected encode_record_document encode_tag_document encode_event_document
      encode_profile_document encode_capability_grant encode_capability_revocation
  encode_body schema tombstone =
      if is_client schema then ok (body 0 []) else err (schema_body_mismatch schema)
  encode_body record_schema (put_record payload) = do
    encoded ← encode_protected payload (encode_record_document numbers)
    ok (body 1 (encoded ∷ []))
  encode_body tag (put_tag payload) = do
    encoded ← encode_protected payload (encode_tag_document numbers)
    ok (body 2 (encoded ∷ []))
  encode_body event (put_event payload) = do
    encoded ← encode_protected payload (encode_event_document numbers)
    ok (body 3 (encoded ∷ []))
  encode_body profile (put_profile document) = do
    encoded ← encode_profile_document numbers document
    ok (body 4 (encoded ∷ []))
  encode_body space_genesis (genesis controller) = ok (body 5 (bytes controller ∷ []))
  encode_body capability_grant (grant_capability grant) = encode_capability_grant grant
  encode_body capability_revoke (revoke_capability_grant revocation) =
      encode_capability_revocation revocation
  encode_body schema _ = err (schema_body_mismatch schema)

  module _ (public_key : List ℕ → Result TrustError (Unit {0})) where
    -- The last arm of the match.
    abbrev pub no_match : EntitySchema → Outcome (OperationBody Number)
    no_match schema = invalid schema "body kind does not match schema"

    abbrev pub decode_genesis : EntitySchema → List CanonicalValue → Outcome (OperationBody Number)
    decode_genesis schema fields = do
      controller ← fixed_bytes 32 schema (get_elem? fields 1) "genesis controller"
      trusted (public_key controller)
      ok (genesis controller)

    -- The arms of one schema, with the kind and the fields.
    abbrev pub decode_kind : EntitySchema → ℕ → List CanonicalValue → Outcome (OperationBody Number)
    decode_kind record_schema kind fields =
        if (kind == 1) && (length fields == 2)
        then (decode_protected record_schema (get_elem? fields 1) (decode_record_document numbers)
            >>= λ payload. ok (put_record payload))
        else no_match record_schema
    decode_kind tag kind fields =
        if (kind == 2) && (length fields == 2)
        then (decode_protected tag (get_elem? fields 1) (decode_tag_document numbers) >>= λ payload.
            ok (put_tag payload))
        else no_match tag
    decode_kind event kind fields =
        if (kind == 3) && (length fields == 2)
        then (decode_protected event (get_elem? fields 1) (decode_event_document numbers)
            >>= λ payload. ok (put_event payload))
        else no_match event
    decode_kind profile kind fields =
        if (kind == 4) && (length fields == 2)
        then (decode_profile_document numbers profile (get_elem? fields 1) >>= λ document.
            ok (put_profile document))
        else no_match profile
    decode_kind space_genesis kind fields =
        if (kind == 5) && (length fields == 2)
        then decode_genesis space_genesis fields
        else no_match space_genesis
    decode_kind capability_grant kind fields =
        if kind == 6
        then decode_capability_grant Number public_key capability_grant fields
        else no_match capability_grant
    decode_kind capability_revoke kind fields =
        if kind == 7
        then decode_capability_revocation Number public_key capability_revoke fields
        else no_match capability_revoke

    unfoldable pub decode_body : EntitySchema → CanonicalValue → Outcome (OperationBody Number)
    unfolding body_array unsigned_field fixed_bytes decode_protected decode_record_document
        decode_tag_document decode_event_document decode_profile_document decode_capability_grant
        decode_capability_revocation
    decode_body schema value = do
      fields ← body_array schema value
      kind ← unsigned_field schema (get_elem? fields 0) "body kind"
      if (is_client schema && (kind == 0)) && (length fields == 1)
          then ok tombstone
          else decode_kind schema kind fields
