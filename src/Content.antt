-- ===== src/Content.antt =====
-- crates/fractonica-content/src/lib.rs: the reference of a resource and the errors of its validation.
use fractonica.Common.{ℕ, List, Option}

pub record ResourceRef : Type 0 where
  pub content_id : List ℕ
  pub byte_length : ℕ
  pub media_type : List ℕ
  pub role : List ℕ
  pub original_name : Option (List ℕ)

pub data ContentValidationError : Type 0 where
  content_too_large : ℕ → ℕ → ContentValidationError
  invalid_media_type : List ℕ → ℕ → ContentValidationError
  invalid_role : List ℕ → ℕ → ContentValidationError
  invalid_original_name : List ℕ → ℕ → ContentValidationError
