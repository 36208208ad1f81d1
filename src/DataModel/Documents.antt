-- ===== src/DataModel/Documents.antt =====
-- The documents and bodies of operations. Identifiers are arrays of bytes, and a `BTreeMap` is the list
-- of its entries in the order of the keys.
use fractonica.Common.{ℕ, List, Option}
use fractonica.Common.Int.{ℤ}
pub use fractonica.Content.{ResourceRef}
use fractonica.DataModel.{EntitySchema, Visibility}
use fractonica.DataModel.Json.{Members}

pub data ReferenceTarget : Type 0 where
  actor : List ℕ → ReferenceTarget
  entity : List ℕ → List ℕ → Option (List ℕ) → ReferenceTarget

pub record EntityReference : Type 0 where
  pub relation : List ℕ
  pub target : ReferenceTarget

pub data EncryptionAlgorithm : Type 0 where
  aes256_gcm : EncryptionAlgorithm

pub record EncryptedPayload : Type 0 where
  pub algorithm : EncryptionAlgorithm
  pub key_id : List ℕ
  pub nonce_base64url : List ℕ
  pub ciphertext_base64url : List ℕ

pub data ProtectedDocument (T : Type 0) : Type 0 where
  public_document : T → ProtectedDocument T
  private_document : EncryptedPayload → List ResourceRef → ProtectedDocument T

pub record RecordDocument (Number : Type 0) : Type 0 where
  pub start_at_unix_ms : ℤ
  pub end_at_unix_ms : Option ℤ
  pub emoji : Option (List ℕ)
  pub text : Option (List ℕ)
  pub metadata : Members Number
  pub resources : List ResourceRef
  pub references : List EntityReference

pub record TagDocument (Number : Type 0) : Type 0 where
  pub name : List ℕ
  pub emoji : Option (List ℕ)
  pub notes : Option (List ℕ)
  pub color_hex : Option (List ℕ)
  pub metadata : Members Number
  pub references : List EntityReference

pub record EventDocument (Number : Type 0) : Type 0 where
  pub start_at_unix_ms : ℤ
  pub end_at_unix_ms : Option ℤ
  pub label : List ℕ
  pub type_number : ℤ
  pub metadata : Members Number
  pub references : List EntityReference

pub record ProfileDocument (Number : Type 0) : Type 0 where
  pub handle : List ℕ
  pub display_name : List ℕ
  pub saros_anchor : ℕ
  pub avatar : Option ResourceRef
  pub metadata : Members Number

pub data CapabilityAction : Type 0 where
  append_operation issue_capability revoke_capability read_space write_content link_workspace :
      CapabilityAction

pub record CapabilityGrant : Type 0 where
  pub subject : List ℕ
  pub actions : List CapabilityAction
  pub schemas : List EntitySchema
  pub visibilities : List Visibility
  pub content_roles : List (List ℕ)
  pub max_resource_byte_length : Option ℕ
  pub not_before_unix_ms : Option ℤ
  pub expires_at_unix_ms : Option ℤ
  pub delegation_depth : ℕ
  pub label : List ℕ

pub data CapabilityRevocationReason : Type 0 where
  key_compromised device_lost key_rotated scope_changed administrative : CapabilityRevocationReason

pub record CapabilityRevocation : Type 0 where
  pub grant_id : List ℕ
  pub reason : CapabilityRevocationReason
  pub detail : Option (List ℕ)

pub data OperationBody (Number : Type 0) : Type 0 where
  put_record : ProtectedDocument (RecordDocument Number) → OperationBody Number
  put_tag : ProtectedDocument (TagDocument Number) → OperationBody Number
  put_event : ProtectedDocument (EventDocument Number) → OperationBody Number
  put_profile : ProfileDocument Number → OperationBody Number
  tombstone : OperationBody Number
  genesis : List ℕ → OperationBody Number
  grant_capability : CapabilityGrant → OperationBody Number
  revoke_capability_grant : CapabilityRevocation → OperationBody Number
