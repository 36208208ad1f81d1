-- ===== src/DataModel/Capabilities.antt =====
-- canonical.rs: capability grants and revocations. The check of public keys, which Ed25519 decides, is a
-- parameter.
pub mod RoundTrip
use fractonica.Common.{ℕ, ◌==◌, not, List, [], ◌∷◌, length, get_elem?, some}
use fractonica.Common.Result.{Result, ok, ◌>>=◌, ◌>>◌, refuse}
use fractonica.Trust.Errors.{TrustError}
use fractonica.Trust.Value.{CanonicalValue, unsigned, bytes, text, array, items}
use fractonica.DataModel.{trusted, EntitySchema, invalid_canonical_body, Outcome}
use fractonica.DataModel.Documents.{
  CapabilityGrant, CapabilityRevocation, OperationBody, grant_capability, revoke_capability_grant,
}
use fractonica.DataModel.Fields.{
  unsigned_field, optional_nonnegative_i64, decode_optional_unsigned, text_field,
  decode_optional_text, fixed_bytes, optional_nonnegative_integer, optional_unsigned, optional_text,
  decode_array, try_from,
}
use fractonica.DataModel.Codes.{
  as_str, parse, visibility_code, decode_visibility, action_code, decode_action,
  revocation_reason_code, decode_revocation_reason,
}
use fractonica.DataModel.Parts.{encode_all}

unfoldable pub encode_capability_grant : CapabilityGrant → Outcome CanonicalValue
unfolding encode_all optional_unsigned optional_nonnegative_integer action_code as_str
    visibility_code
encode_capability_grant grant = do
  not_before ← optional_nonnegative_integer grant.not_before_unix_ms
  expires_at ← optional_nonnegative_integer grant.expires_at_unix_ms
  ok (
      array (
        items (
          unsigned 6
          ∷ bytes grant.subject
          ∷ array (items (encode_all (λ action. unsigned (action_code action)) grant.actions))
          ∷ array (items (encode_all (λ schema. text (as_str schema)) grant.schemas))
          ∷ array (
              items (
                encode_all (λ visibility. unsigned (visibility_code visibility))
                  grant.visibilities))
          ∷ array (items (encode_all text grant.content_roles))
          ∷ optional_unsigned grant.max_resource_byte_length
          ∷ not_before
          ∷ expires_at
          ∷ unsigned grant.delegation_depth
          ∷ text grant.label
          ∷ [])))

unfoldable pub encode_capability_revocation : CapabilityRevocation → Outcome CanonicalValue
unfolding revocation_reason_code optional_text
encode_capability_revocation revocation = ok (
    array (
      items (
        unsigned 7
        ∷ bytes revocation.grant_id
        ∷ unsigned (revocation_reason_code revocation.reason)
        ∷ optional_text revocation.detail
        ∷ [])))

abbrev pub decode_schema_name : EntitySchema → CanonicalValue → Outcome EntitySchema
decode_schema_name schema value = text_field schema (some value) "grant schema" >>= parse

module _ (Number : Type 0) (public_key : List ℕ → Result TrustError (Unit {0})) where
  unfoldable pub decode_capability_grant :
      EntitySchema → List CanonicalValue → Outcome (OperationBody Number)
  unfolding fixed_bytes decode_array decode_action text_field parse decode_visibility
      decode_optional_unsigned optional_nonnegative_i64 unsigned_field
  decode_capability_grant schema fields = do
    refuse (not (length fields == 11))
        (invalid_canonical_body schema "capability grant must contain exactly eleven fields")
    subject ← fixed_bytes 32 schema (get_elem? fields 1) "grant subject"
    trusted (public_key subject)
    actions ←
        decode_array schema (get_elem? fields 2) "grant actions"
          (λ value. decode_action schema (some value) "grant action")
    schemas ← decode_array schema (get_elem? fields 3) "grant schemas" (decode_schema_name schema)
    visibilities ←
        decode_array schema (get_elem? fields 4) "grant record visibilities"
          (λ value. decode_visibility schema (some value) "grant visibility")
    content_roles ←
        decode_array schema (get_elem? fields 5) "grant content roles"
          (λ value. text_field schema (some value) "grant content role")
    maximum ← decode_optional_unsigned schema (get_elem? fields 6) "grant resource limit"
    not_before ← optional_nonnegative_i64 schema (get_elem? fields 7) "grant not-before"
    expires_at ← optional_nonnegative_i64 schema (get_elem? fields 8) "grant expiration"
    depth ← unsigned_field schema (get_elem? fields 9) "grant delegation depth"
    delegation_depth ← try_from schema 256 "grant delegation depth is outside u8" depth
    label ← text_field schema (get_elem? fields 10) "grant label"
    ok (
        grant_capability (record {
          subject = subject;
          actions = actions;
          schemas = schemas;
          visibilities = visibilities;
          content_roles = content_roles;
          max_resource_byte_length = maximum;
          not_before_unix_ms = not_before;
          expires_at_unix_ms = expires_at;
          delegation_depth = delegation_depth;
          label = label;
        }))

  unfoldable pub decode_capability_revocation :
      EntitySchema → List CanonicalValue → Outcome (OperationBody Number)
  unfolding fixed_bytes decode_revocation_reason decode_optional_text
  decode_capability_revocation schema fields = do
    refuse (not (length fields == 4))
        (invalid_canonical_body schema "capability revocation must contain exactly four fields")
    grant_id ← fixed_bytes 32 schema (get_elem? fields 1) "revoked grant ID"
    reason ← decode_revocation_reason schema (get_elem? fields 2)
    detail ← decode_optional_text schema (get_elem? fields 3) "revocation detail"
    ok (revoke_capability_grant (record { grant_id = grant_id; reason = reason; detail = detail }))
