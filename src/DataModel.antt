-- ===== src/DataModel.antt =====
-- crates/fractonica-data-model/src/lib.rs: the vocabulary of operations and its errors. A `String` is the
-- list of its UTF-8 bytes, as is the argument of `parse`; the names of fields in errors are texts.
pub mod Json
pub mod Documents
pub mod Fields
pub mod Codes
pub mod Metadata
pub mod Parts
pub mod Encodings
pub mod Capabilities
pub mod Bodies
pub mod Maps
pub mod Reducer
mod Tests
use Prim.Native.Char.{code}
use Prim.Native.String.{String}
use fractonica.Common.{ℕ, List, [], ◌∷◌}
use fractonica.Common.Int.{ℤ}
use fractonica.Common.Result.{Result, ok, err}
use fractonica.Content.{ContentValidationError}
use fractonica.Trust.Errors.{TrustError}

pub data EntitySchema : Type 0 where
  event profile record_schema space_genesis capability_grant capability_revoke tag : EntitySchema

pub data Visibility : Type 0 where
  public private : Visibility

pub data DataModelError : Type 0 where
  trust : TrustError → DataModelError
  unsupported_protocol_version : ℕ → ℕ → DataModelError
  unsupported_schema : List ℕ → DataModelError
  nil_entity_id : DataModelError
  projection_mismatch : String → DataModelError
  non_canonical_cose_projection : DataModelError
  schema_body_mismatch : EntitySchema → DataModelError
  invalid_canonical_body : EntitySchema → String → DataModelError
  negative_occurred_at : ℤ → DataModelError
  negative_record_start : ℤ → DataModelError
  record_end_before_start : ℤ → ℤ → DataModelError
  invalid_emoji : ℕ → ℕ → DataModelError
  text_too_long : ℕ → ℕ → DataModelError
  too_many_causal_parents : ℕ → ℕ → DataModelError
  too_many_authorization_references : ℕ → ℕ → DataModelError
  self_causal_parent : List ℕ → DataModelError
  duplicate_causal_parent : List ℕ → DataModelError
  too_many_metadata_entries : ℕ → ℕ → DataModelError
  invalid_metadata_key : List ℕ → ℕ → DataModelError
  metadata_string_too_long : ℕ → ℕ → DataModelError
  unsupported_metadata_number : List ℕ → DataModelError
  metadata_too_deep : ℕ → ℕ → DataModelError
  metadata_container_too_large : ℕ → ℕ → DataModelError
  metadata_too_large : ℕ → ℕ → DataModelError
  metadata_serialization : List ℕ → DataModelError
  too_many_resources : ℕ → ℕ → DataModelError
  invalid_resource : ℕ → ContentValidationError → DataModelError
  duplicate_resource_content_id : List ℕ → DataModelError
  invalid_client_document : String → DataModelError
  invalid_relation : List ℕ → DataModelError
  too_many_entity_references : ℕ → ℕ → DataModelError
  duplicate_entity_reference : DataModelError
  invalid_encrypted_payload : String → DataModelError
  profile_entity_mismatch : DataModelError
  empty_capability_set : String → DataModelError
  capability_set_not_strictly_sorted : String → DataModelError
  capability_set_too_large : String → ℕ → ℕ → DataModelError
  capability_scope_mismatch : String → DataModelError
  invalid_capability_content_role : List ℕ → DataModelError
  capability_resource_limit_too_large : ℕ → ℕ → DataModelError
  delegation_too_deep : ℕ → ℕ → DataModelError
  negative_capability_time : String → ℤ → DataModelError
  invalid_capability_window : ℤ → ℤ → DataModelError
  invalid_bounded_label : String → ℕ → ℕ → DataModelError
  genesis_controller_mismatch : List ℕ → List ℕ → DataModelError
  genesis_must_be_root : DataModelError
  missing_authorization : DataModelError
  duplicate_operation_id : List ℕ → DataModelError
  foreign_space : List ℕ → List ℕ → DataModelError
  foreign_entity : List ℕ → List ℕ → DataModelError
  foreign_schema : EntitySchema → EntitySchema → DataModelError
  causal_parent_not_preexisting : List ℕ → List ℕ → DataModelError
  foreign_causal_parent : List ℕ → DataModelError

abbrev pub Outcome {ℓ} : Type ℓ → Type ℓ
Outcome = Result DataModelError

-- `?` on a result of crates/fractonica-trust.
abbrev pub trusted {ℓ} : {A : Type ℓ} → Result TrustError A → Outcome A
trusted (ok a) = ok a
trusted (err e) = err (trust e)

-- The bytes of an ASCII text.
abbrev pub codes : String → List ℕ
codes String.[] = []
codes (String.◌∷◌ c s) = code c ∷ codes s
