-- ===== src/DataModel/Parts/RoundTrip.antt =====
-- Resources, references, envelopes and protected documents are read back from their encodings.
use fractonica.Common.{ℕ, ◌≡◌, refl, List, [], ◌∷◌, length, Option, none, some}
use fractonica.Common.Result.{ok}
use fractonica.Trust.Value.{CanonicalValue, unsigned, array, items, to_list-items}
use fractonica.DataModel.{EntitySchema, Outcome}
use fractonica.DataModel.Documents.{
  ReferenceTarget, actor, entity, EntityReference, EncryptedPayload, EncryptionAlgorithm,
  aes256_gcm, ResourceRef, ProtectedDocument, public_document, private_document,
}
use fractonica.DataModel.Fields.Exact.{
  fixed_bytes-bytes, decode_optional_text-optional_text, Reads, collect-encode_all,
  decode_array-encode_all,
}
use fractonica.DataModel.Parts.{
  encode_resource, decode_resource, encode_all, decode_resources, encode_target, decode_target,
  encode_reference, decode_reference, encode_references, decode_references,
  encode_encrypted_payload, decode_encrypted_payload, encode_protected, decode_protected,
}

-- The lengths of the arrays of bytes, which the types of the code fix.
abbrev pub IsResource : ResourceRef → Type 0
IsResource resource = length resource.content_id ≡ 32

abbrev pub IsOptionalId : Option (List ℕ) → Type 0
IsOptionalId none = Unit {0}
IsOptionalId (some id) = length id ≡ 32

abbrev pub IsTarget : ReferenceTarget → Type 0
IsTarget (actor actor_id) = length actor_id ≡ 32
IsTarget (entity space_id entity_id operation_id) =
    (length space_id ≡ 32) × (length entity_id ≡ 16) × IsOptionalId operation_id

abbrev pub AllOf {ℓ} : {A : Type ℓ} → (A → Type 0) → List A → Type 0
AllOf P [] = Unit {0}
AllOf P (x ∷ xs) = P x × AllOf P xs

Reads-AllOf {ℓ} :
    {A : Type ℓ} (P : A → Type 0) (encode : A → CanonicalValue)
    (decode : CanonicalValue → Outcome A) (xs : List A)
    → ((x : A) → P x → decode (encode x) ≡ ok x)
    → AllOf P xs
    → Reads encode decode xs
Reads-AllOf P encode decode [] h a = tt
Reads-AllOf P encode decode (x ∷ xs) h (p, a) = (h x p, Reads-AllOf P encode decode xs h a)

only_algorithm : (a : EncryptionAlgorithm) → a ≡ aes256_gcm
only_algorithm aes256_gcm = refl

-- The value is written, and read back from what is written.
abbrev pub IsReread {ℓ} :
    {A : Type ℓ} → (A → Outcome CanonicalValue) → (CanonicalValue → Outcome A) → A → Type ℓ
IsReread encode decode x = (v : CanonicalValue) × (encode x ≡ ok v) × (decode v ≡ ok x)

module _ (schema : EntitySchema) where
  pub decode_resource-encode_resource :
      (resource : ResourceRef)
      → IsResource resource
      → decode_resource schema (encode_resource resource) ≡ ok resource
  unfolding decode_resource encode_resource
  decode_resource-encode_resource resource h =
      rw (fixed_bytes-bytes schema 32 resource.content_id "resource content ID" h) (
        rw
          (decode_optional_text-optional_text schema resource.original_name
            "resource original name")
          refl)

  pub decode_target-encode_target :
      (target : ReferenceTarget)
      → IsTarget target
      → decode_target schema (encode_target target) ≡ ok target
  unfolding decode_target encode_target
  decode_target-encode_target (actor id) h =
      rw (fixed_bytes-bytes schema 32 id "referenced actor" h) refl
  decode_target-encode_target (entity space id none) (h, h', _) =
      rw (fixed_bytes-bytes schema 32 space "referenced space" h)
        (rw (fixed_bytes-bytes schema 16 id "referenced entity" h') refl)
  decode_target-encode_target (entity space id (some op)) (h, h', h'') =
      rw (fixed_bytes-bytes schema 32 op "referenced operation" h'') (
        rw (fixed_bytes-bytes schema 32 space "referenced space" h)
          (rw (fixed_bytes-bytes schema 16 id "referenced entity" h') refl))

  pub decode_reference-encode_reference :
      (reference : EntityReference)
      → IsTarget reference.target
      → decode_reference schema (encode_reference reference) ≡ ok reference
  unfolding decode_reference encode_reference
  decode_reference-encode_reference reference h =
      rw (decode_target-encode_target reference.target h) refl

  pub decode_references-encode_references :
      (references : List EntityReference)
      → AllOf (λ r. IsTarget r.target) references
      → decode_references schema (some (encode_references references)) ≡ ok references
  unfolding decode_references encode_references
  decode_references-encode_references references h =
      decode_array-encode_all encode_reference (decode_reference schema) schema "entity references"
        references
        (Reads-AllOf (λ r. IsTarget r.target) encode_reference (decode_reference schema) references
          decode_reference-encode_reference h)

  Reads-resources :
      (resources : List ResourceRef)
      → AllOf IsResource resources
      → Reads encode_resource (decode_resource schema) resources
  Reads-resources resources =
      Reads-AllOf IsResource encode_resource (decode_resource schema) resources
        decode_resource-encode_resource

  pub decode_resources-encode_all :
      (resources : List ResourceRef)
      → AllOf IsResource resources
      → decode_resources schema
          (some (CanonicalValue.array (items (encode_all encode_resource resources))))
        ≡ ok resources
  unfolding decode_resources
  decode_resources-encode_all resources h =
      decode_array-encode_all encode_resource (decode_resource schema) schema "resources" resources
        (Reads-resources resources h)

  pub decode_encrypted_payload-encode_encrypted_payload :
      (envelope : EncryptedPayload)
      → decode_encrypted_payload schema (some (encode_encrypted_payload envelope)) ≡ ok envelope
  unfolding decode_encrypted_payload encode_encrypted_payload
  decode_encrypted_payload-encode_encrypted_payload envelope =
      rw (only_algorithm envelope.algorithm) refl

  module _ {T : Type 0} (encode : T → Outcome CanonicalValue)
      (decode : EntitySchema → CanonicalValue → Outcome T) where
    abbrev pub IsProtected : ProtectedDocument T → Type 0
    IsProtected (public_document document) = IsReread encode (decode schema) document
    IsProtected (private_document envelope resources) = AllOf IsResource resources

    pub protected_read :
        (payload : ProtectedDocument T)
        → IsProtected payload
        → IsReread
            (λ p. encode_protected p encode)
            (λ v. decode_protected schema (some v) decode)
            payload
    unfolding encode_protected decode_protected
    protected_read (public_document document) (e, p, q) =
        (array (items (unsigned 0 ∷ e ∷ array (items []) ∷ [])), rw p refl, rw q refl)
    protected_read (private_document envelope resources) h = (
      array (
          items (
            unsigned 1
            ∷ encode_encrypted_payload envelope
            ∷ array (items (encode_all encode_resource resources))
            ∷ [])),
      refl,
      rw (decode_encrypted_payload-encode_encrypted_payload envelope) (
          rw (to_list-items (encode_all encode_resource resources)) (
            rw
              (collect-encode_all encode_resource (decode_resource schema) resources
                (Reads-resources resources h))
              refl)),
    )
