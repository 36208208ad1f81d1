-- ===== src/DataModel/Codes.antt =====
-- The names of schemas and the codes of closed vocabularies, in lib.rs and canonical.rs.
pub mod RoundTrip
use Prim.Native.String.{String}
use fractonica.Common.{ℕ, ◌==◌, List, Option, if◌then◌else◌}
use fractonica.Common.Arrays.{eqb_bytes}
use fractonica.Common.Result.{ok, err, ◌>>=◌}
use fractonica.Trust.Value.{CanonicalValue}
use fractonica.DataModel.{
  EntitySchema, event, profile, record_schema, space_genesis, capability_grant, capability_revoke,
  tag, Visibility, public, private, unsupported_schema, Outcome, codes,
}
use fractonica.DataModel.Documents.{
  CapabilityAction, append_operation, issue_capability, revoke_capability, read_space,
  write_content, link_workspace, CapabilityRevocationReason, key_compromised, device_lost,
  key_rotated, scope_changed, administrative,
}
use fractonica.DataModel.Fields.{invalid, unsigned_field}

unfoldable pub as_str : EntitySchema → List ℕ
as_str event = codes "event"
as_str profile = codes "profile"
as_str record_schema = codes "record"
as_str space_genesis = codes "space.genesis"
as_str capability_grant = codes "capability.grant"
as_str capability_revoke = codes "capability.revoke"
as_str tag = codes "tag"

unfoldable pub parse : List ℕ → Outcome EntitySchema
parse value =
    if eqb_bytes value (codes "event")
    then ok event
    else if eqb_bytes value (codes "profile")
    then ok profile
    else if eqb_bytes value (codes "record")
    then ok record_schema
    else if eqb_bytes value (codes "space.genesis")
    then ok space_genesis
    else if eqb_bytes value (codes "capability.grant")
    then ok capability_grant
    else if eqb_bytes value (codes "capability.revoke")
    then ok capability_revoke
    else if eqb_bytes value (codes "tag")
    then ok tag
    else err (unsupported_schema value)

unfoldable pub visibility_code : Visibility → ℕ
visibility_code public = 0
visibility_code private = 1

abbrev pub visibility_of : EntitySchema → ℕ → Outcome Visibility
visibility_of schema code =
    if code == 0
    then ok public
    else if code == 1
    then ok private
    else invalid schema "unknown visibility code"

unfoldable pub decode_visibility :
    EntitySchema → Option CanonicalValue → String → Outcome Visibility
unfolding unsigned_field
decode_visibility schema value detail = unsigned_field schema value detail >>= visibility_of schema

unfoldable pub action_code : CapabilityAction → ℕ
action_code append_operation = 0
action_code issue_capability = 1
action_code revoke_capability = 2
action_code read_space = 3
action_code write_content = 4
action_code link_workspace = 5

abbrev pub action_of : EntitySchema → ℕ → Outcome CapabilityAction
action_of schema code =
    if code == 0
    then ok append_operation
    else if code == 1
    then ok issue_capability
    else if code == 2
    then ok revoke_capability
    else if code == 3
    then ok read_space
    else if code == 4
    then ok write_content
    else if code == 5
    then ok link_workspace
    else invalid schema "unknown capability action code"

unfoldable pub decode_action :
    EntitySchema → Option CanonicalValue → String → Outcome CapabilityAction
unfolding unsigned_field
decode_action schema value detail = unsigned_field schema value detail >>= action_of schema

unfoldable pub revocation_reason_code : CapabilityRevocationReason → ℕ
revocation_reason_code key_compromised = 0
revocation_reason_code device_lost = 1
revocation_reason_code key_rotated = 2
revocation_reason_code scope_changed = 3
revocation_reason_code administrative = 4

abbrev pub reason_of : EntitySchema → ℕ → Outcome CapabilityRevocationReason
reason_of schema code =
    if code == 0
    then ok key_compromised
    else if code == 1
    then ok device_lost
    else if code == 2
    then ok key_rotated
    else if code == 3
    then ok scope_changed
    else if code == 4
    then ok administrative
    else invalid schema "unknown revocation reason code"

unfoldable pub decode_revocation_reason :
    EntitySchema → Option CanonicalValue → Outcome CapabilityRevocationReason
unfolding unsigned_field
decode_revocation_reason schema value =
    unsigned_field schema value "revocation reason" >>= reason_of schema
