-- ===== src/DataModel/Capabilities/RoundTrip.antt =====
-- Grants and revocations are read back from their encodings.
use fractonica.Common.{ℕ, ◌<◌, ◌≡◌, refl, some, List, [], ◌∷◌, length}
use fractonica.Common.Result.{Result, ok}
use fractonica.Trust.Errors.{TrustError}
use fractonica.Trust.Value.{CanonicalValue, unsigned, bytes, text, array, items}
use fractonica.DataModel.{EntitySchema, Visibility}
use fractonica.DataModel.Documents.{
  CapabilityAction, CapabilityGrant, CapabilityRevocation, grant_capability,
  revoke_capability_grant,
}
use fractonica.DataModel.Fields.{text_field, decode_array, optional_unsigned, optional_text}
use fractonica.DataModel.Fields.Exact.{
  IsOptionalTime, optional_time_value, try_from-ok, optional_nonnegative_integer-IsTime,
  optional_nonnegative_i64-time_value, fixed_bytes-bytes, decode_optional_text-optional_text,
  decode_optional_unsigned-optional_unsigned, Reads-every, decode_array-encode_all,
}
use fractonica.DataModel.Codes.{
  as_str, visibility_code, decode_visibility, action_code, decode_action, revocation_reason_code,
}
use fractonica.DataModel.Codes.RoundTrip.{
  parse-as_str, decode_visibility-visibility_code, decode_action-action_code,
  decode_revocation_reason-revocation_reason_code,
}
use fractonica.DataModel.Parts.{encode_all}
use fractonica.DataModel.Capabilities.{
  encode_capability_grant, decode_capability_grant, encode_capability_revocation,
  decode_capability_revocation, decode_schema_name,
}

pub record IsGrant (public_key : List ℕ → Result TrustError (Unit {0})) (grant : CapabilityGrant)
    : Type 0 where
  pub subject_id : length grant.subject ≡ 32
  pub subject_key : public_key grant.subject ≡ ok tt
  pub not_before_in : IsOptionalTime grant.not_before_unix_ms
  pub expires_in : IsOptionalTime grant.expires_at_unix_ms
  pub depth_in : grant.delegation_depth < 256

abbrev pub IsRevocation : CapabilityRevocation → Type 0
IsRevocation revocation = length revocation.grant_id ≡ 32

decode_schema_name-as_str :
    (schema name : EntitySchema) → decode_schema_name schema (text (as_str name)) ≡ ok name
unfolding text_field
decode_schema_name-as_str schema name = parse-as_str name

module _ (Number : Type 0) (public_key : List ℕ → Result TrustError (Unit {0}))
    (schema : EntitySchema) where
  pub revocation_read :
      (revocation : CapabilityRevocation)
      → IsRevocation revocation
      → (fields : List CanonicalValue) × (encode_capability_revocation revocation
          ≡ ok (array (items (unsigned 7 ∷ fields))))
        × (decode_capability_revocation Number public_key schema (unsigned 7 ∷ fields)
            ≡ ok (revoke_capability_grant revocation))
  unfolding encode_capability_revocation decode_capability_revocation
  revocation_read revocation h = (
    bytes revocation.grant_id
        ∷ unsigned (revocation_reason_code revocation.reason)
        ∷ optional_text revocation.detail
        ∷ [],
    refl,
    rw (fixed_bytes-bytes schema 32 revocation.grant_id "revoked grant ID" h) (
        rw (decode_revocation_reason-revocation_reason_code schema revocation.reason) (
          rw (decode_optional_text-optional_text schema revocation.detail "revocation detail")
            refl)),
  )

  text_field-text :
      (value : List ℕ) → text_field schema (some (text value)) "grant content role" ≡ ok value
  unfolding text_field
  text_field-text value = refl

  actions_read :
      (xs : List CapabilityAction)
      → decode_array schema
          (some (array (items (encode_all (λ action. unsigned (action_code action)) xs))))
          "grant actions"
          (λ value. decode_action schema (some value) "grant action")
        ≡ ok xs
  actions_read xs =
      decode_array-encode_all (λ action. unsigned (action_code action))
        (λ value. decode_action schema (some value) "grant action") schema "grant actions" xs
        (Reads-every (λ action. unsigned (action_code action))
          (λ value. decode_action schema (some value) "grant action") xs
          (λ x. decode_action-action_code schema x "grant action"))

  schemas_read :
      (xs : List EntitySchema)
      → decode_array schema
          (some (array (items (encode_all (λ name. text (as_str name)) xs))))
          "grant schemas"
          (decode_schema_name schema)
        ≡ ok xs
  schemas_read xs =
      decode_array-encode_all (λ name. text (as_str name)) (decode_schema_name schema) schema
        "grant schemas" xs
        (Reads-every (λ name. text (as_str name)) (decode_schema_name schema) xs
          (decode_schema_name-as_str schema))

  visibilities_read :
      (xs : List Visibility)
      → decode_array schema
          (some
            (array (items (encode_all (λ visibility. unsigned (visibility_code visibility)) xs))))
          "grant record visibilities"
          (λ value. decode_visibility schema (some value) "grant visibility")
        ≡ ok xs
  visibilities_read xs =
      decode_array-encode_all (λ visibility. unsigned (visibility_code visibility))
        (λ value. decode_visibility schema (some value) "grant visibility") schema
        "grant record visibilities" xs
        (Reads-every (λ visibility. unsigned (visibility_code visibility))
          (λ value. decode_visibility schema (some value) "grant visibility") xs
          (λ x. decode_visibility-visibility_code schema x "grant visibility"))

  roles_read :
      (xs : List (List ℕ))
      → decode_array schema
          (some (array (items (encode_all text xs))))
          "grant content roles"
          (λ value. text_field schema (some value) "grant content role")
        ≡ ok xs
  roles_read xs =
      decode_array-encode_all text (λ value. text_field schema (some value) "grant content role")
        schema "grant content roles" xs
        (Reads-every text (λ value. text_field schema (some value) "grant content role") xs
          text_field-text)

  pub grant_read :
      (grant : CapabilityGrant)
      → IsGrant public_key grant
      → (fields : List CanonicalValue) × (encode_capability_grant grant
          ≡ ok (array (items (unsigned 6 ∷ fields))))
        × (decode_capability_grant Number public_key schema (unsigned 6 ∷ fields)
            ≡ ok (grant_capability grant))
  unfolding encode_capability_grant decode_capability_grant
  grant_read grant h = (
    bytes grant.subject
        ∷ array (items (encode_all (λ action. unsigned (action_code action)) grant.actions))
        ∷ array (items (encode_all (λ schema. text (as_str schema)) grant.schemas))
        ∷ array (
            items
              (encode_all (λ visibility. unsigned (visibility_code visibility)) grant.visibilities))
        ∷ array (items (encode_all text grant.content_roles))
        ∷ optional_unsigned grant.max_resource_byte_length
        ∷ optional_time_value grant.not_before_unix_ms
        ∷ optional_time_value grant.expires_at_unix_ms
        ∷ unsigned grant.delegation_depth
        ∷ text grant.label
        ∷ [],
    rw (optional_nonnegative_integer-IsTime grant.not_before_unix_ms h.not_before_in)
        (rw (optional_nonnegative_integer-IsTime grant.expires_at_unix_ms h.expires_in) refl),
    rw (fixed_bytes-bytes schema 32 grant.subject "grant subject" h.subject_id) (
        rw h.subject_key (
          rw (actions_read grant.actions) (
            rw (schemas_read grant.schemas) (
              rw (visibilities_read grant.visibilities) (
                rw (roles_read grant.content_roles) (
                  rw
                    (decode_optional_unsigned-optional_unsigned schema
                      grant.max_resource_byte_length "grant resource limit")
                    (rw
                      (optional_nonnegative_i64-time_value schema grant.not_before_unix_ms
                        "grant not-before" h.not_before_in)
                      (rw
                        (optional_nonnegative_i64-time_value schema grant.expires_at_unix_ms
                          "grant expiration" h.expires_in)
                        (rw
                          (try_from-ok schema 256 "grant delegation depth is outside u8"
                            grant.delegation_depth h.depth_in)
                          refl))))))))),
  )
