-- ===== src/Trust/Errors.antt =====
-- The errors of identifiers and of operations. The identifiers are arrays of bytes.
use Prim.Native.String.{String}
use fractonica.Common.{ℕ, List}
use fractonica.Common.Int.{ℤ}
use fractonica.Trust.Cbor.{CanonicalCborError}

pub data IdentifierParseError : Type 0 where
  wrong_prefix : String → IdentifierParseError
  invalid_length : ℕ → ℕ → IdentifierParseError
  uppercase_hex : ℕ → IdentifierParseError
  invalid_hex : ℕ → ℕ → IdentifierParseError

pub data TrustError : Type 0 where
  identifier : IdentifierParseError → TrustError
  canonical_cbor : CanonicalCborError → TrustError
  invalid_public_key : TrustError
  nil_space_id : TrustError
  nil_entity_id : TrustError
  invalid_schema : List ℕ → TrustError
  negative_occurred_at : ℤ → TrustError
  too_many_causal_parents : ℕ → ℕ → TrustError
  too_many_authorization_references : ℕ → ℕ → TrustError
  duplicate_causal_parent : List ℕ → TrustError
  duplicate_authorization_reference : List ℕ → TrustError
  causal_parents_not_strictly_ascending : TrustError
  authorization_not_strictly_ascending : TrustError
  signing_actor_mismatch : List ℕ → List ℕ → TrustError
  unexpected_actor : List ℕ → List ℕ → TrustError
  operation_id_mismatch : TrustError
  signature_verification_failed : TrustError
  wrong_operation_domain : TrustError
  unsupported_operation_version : TrustError
  invalid_operation_payload : String → TrustError
  invalid_cose_sign1 : TrustError
  wrong_cose_protected_header : TrustError
  non_empty_cose_unprotected_header : TrustError
  invalid_cose_signature_length : TrustError
