-- ===== src/DataModel/Codes/RoundTrip.antt =====
-- The decoders of closed vocabularies read the codes and names that are written.
use Prim.Native.String.{String}
use fractonica.Common.{◌≡◌, refl, some}
use fractonica.Common.Result.{ok}
use fractonica.Trust.Value.{unsigned}
use fractonica.DataModel.{
  EntitySchema, event, profile, record_schema, space_genesis, capability_grant, capability_revoke,
  tag, Visibility, public, private,
}
use fractonica.DataModel.Documents.{
  CapabilityAction, append_operation, issue_capability, revoke_capability, read_space,
  write_content, link_workspace, CapabilityRevocationReason, key_compromised, device_lost,
  key_rotated, scope_changed, administrative,
}
use fractonica.DataModel.Codes.{
  as_str, parse, visibility_code, decode_visibility, action_code, decode_action,
  revocation_reason_code, decode_revocation_reason,
}

-- Every schema is parsed from its name.
pub parse-as_str : (schema : EntitySchema) → parse (as_str schema) ≡ ok schema
unfolding parse as_str
parse-as_str event = refl
parse-as_str profile = refl
parse-as_str record_schema = refl
parse-as_str space_genesis = refl
parse-as_str capability_grant = refl
parse-as_str capability_revoke = refl
parse-as_str tag = refl

module _ (schema : EntitySchema) where
  pub decode_visibility-visibility_code :
      (visibility : Visibility) (detail : String)
      → decode_visibility schema (some (unsigned (visibility_code visibility))) detail
        ≡ ok visibility
  unfolding decode_visibility visibility_code
  decode_visibility-visibility_code public detail = refl
  decode_visibility-visibility_code private detail = refl

  pub decode_action-action_code :
      (action : CapabilityAction) (detail : String)
      → decode_action schema (some (unsigned (action_code action))) detail ≡ ok action
  unfolding decode_action action_code
  decode_action-action_code append_operation detail = refl
  decode_action-action_code issue_capability detail = refl
  decode_action-action_code revoke_capability detail = refl
  decode_action-action_code read_space detail = refl
  decode_action-action_code write_content detail = refl
  decode_action-action_code link_workspace detail = refl

  pub decode_revocation_reason-revocation_reason_code :
      (reason : CapabilityRevocationReason)
      → decode_revocation_reason schema (some (unsigned (revocation_reason_code reason)))
        ≡ ok reason
  unfolding decode_revocation_reason revocation_reason_code
  decode_revocation_reason-revocation_reason_code key_compromised = refl
  decode_revocation_reason-revocation_reason_code device_lost = refl
  decode_revocation_reason-revocation_reason_code key_rotated = refl
  decode_revocation_reason-revocation_reason_code scope_changed = refl
  decode_revocation_reason-revocation_reason_code administrative = refl
