-- ===== src/DataModel/Parts.antt =====
-- canonical.rs: resources, references, envelopes and protected documents.
pub mod RoundTrip
use fractonica.Common.{
  ℕ, ◌==◌, Bool, false, not, ◌&&◌, List, [], ◌∷◌, length, get_elem?, Option, none, some,
  if◌then◌else◌,
}
use fractonica.Common.Result.{ok, ◌>>=◌, ◌>>◌, refuse}
use fractonica.Trust.Value.{CanonicalValue, null, unsigned, bytes, text, array, items}
use fractonica.DataModel.{EntitySchema, invalid_canonical_body, Outcome}
use fractonica.DataModel.Documents.{
  ReferenceTarget, actor, entity, EntityReference, EncryptedPayload, EncryptionAlgorithm,
  aes256_gcm, ResourceRef, ProtectedDocument, public_document, private_document,
}
use fractonica.DataModel.Fields.{
  invalid, required, unsigned_field, text_field, decode_optional_text, fixed_bytes, optional_text,
  as_array, exact_array, body_array, decode_array, collect,
}

unfoldable pub encode_resource : ResourceRef → CanonicalValue
unfolding optional_text
encode_resource resource = array (
    items (
      bytes resource.content_id
      ∷ unsigned resource.byte_length
      ∷ text resource.media_type
      ∷ text resource.role
      ∷ optional_text resource.original_name
      ∷ []))

unfoldable pub decode_resource : EntitySchema → CanonicalValue → Outcome ResourceRef
unfolding fixed_bytes unsigned_field text_field decode_optional_text
decode_resource schema value = do
  fields ← as_array schema "resource reference must be an array" value
  refuse (not (length fields == 5))
      (invalid_canonical_body schema "resource reference must contain exactly five fields")
  content_id ← fixed_bytes 32 schema (get_elem? fields 0) "resource content ID"
  byte_length ← unsigned_field schema (get_elem? fields 1) "resource byte length"
  media_type ← text_field schema (get_elem? fields 2) "resource media type"
  role ← text_field schema (get_elem? fields 3) "resource role"
  original_name ← decode_optional_text schema (get_elem? fields 4) "resource original name"
  ok (record {
    content_id = content_id;
    byte_length = byte_length;
    media_type = media_type;
    role = role;
    original_name = original_name;
  })

-- `resources.iter().map(encode_resource).collect()`
unfoldable pub encode_all {ℓ} : {A : Type ℓ} → (A → CanonicalValue) → List A → List CanonicalValue
encode_all encode [] = []
encode_all encode (x ∷ xs) = encode x ∷ encode_all encode xs

unfoldable pub decode_resources : EntitySchema → Option CanonicalValue → Outcome (List ResourceRef)
unfolding decode_array decode_resource
decode_resources schema value = decode_array schema value "resources" (decode_resource schema)

abbrev pub optional_bytes : Option (List ℕ) → CanonicalValue
optional_bytes none = null
optional_bytes (some value) = bytes value

unfoldable pub encode_target : ReferenceTarget → CanonicalValue
encode_target (actor actor_id) = array (items (unsigned 0 ∷ bytes actor_id ∷ []))
encode_target (entity space_id entity_id operation_id) =
    array (items (unsigned 1 ∷ bytes space_id ∷ bytes entity_id ∷ optional_bytes operation_id ∷ []))

unfoldable pub encode_reference : EntityReference → CanonicalValue
unfolding encode_target
encode_reference reference =
    array (items (text reference.relation ∷ encode_target reference.target ∷ []))

unfoldable pub encode_references : List EntityReference → CanonicalValue
unfolding encode_all encode_reference
encode_references references = array (items (encode_all encode_reference references))

-- `CanonicalValue::Null => None, value => Some(..)`
abbrev pub operation_of : EntitySchema → CanonicalValue → Outcome (Option (List ℕ))
operation_of schema null = ok none
operation_of schema value =
    fixed_bytes 32 schema (some value) "referenced operation" >>= λ id. ok (some id)

abbrev pub decode_actor : EntitySchema → List CanonicalValue → Outcome ReferenceTarget
decode_actor schema fields = do
  actor_id ← fixed_bytes 32 schema (get_elem? fields 1) "referenced actor"
  ok (actor actor_id)

abbrev pub decode_entity : EntitySchema → List CanonicalValue → Outcome ReferenceTarget
decode_entity schema fields = do
  operation ← required schema (get_elem? fields 3) "referenced operation"
  operation_id ← operation_of schema operation
  space_id ← fixed_bytes 32 schema (get_elem? fields 1) "referenced space"
  entity_id ← fixed_bytes 16 schema (get_elem? fields 2) "referenced entity"
  ok (entity space_id entity_id operation_id)

unfoldable pub decode_target : EntitySchema → CanonicalValue → Outcome ReferenceTarget
unfolding body_array unsigned_field fixed_bytes required
decode_target schema value = do
  fields ← body_array schema value
  kind ← unsigned_field schema (get_elem? fields 0) "reference target kind"
  if (kind == 0) && (length fields == 2)
      then decode_actor schema fields
      else if (kind == 1) && (length fields == 4)
      then decode_entity schema fields
      else invalid schema "invalid reference target"

unfoldable pub decode_reference : EntitySchema → CanonicalValue → Outcome EntityReference
unfolding exact_array text_field required decode_target
decode_reference schema value = do
  fields ← exact_array schema value 2 "entity reference"
  relation ← text_field schema (get_elem? fields 0) "reference relation"
  present ← required schema (get_elem? fields 1) "reference target"
  target ← decode_target schema present
  ok (record { relation = relation; target = target })

unfoldable pub decode_references :
    EntitySchema → Option CanonicalValue → Outcome (List EntityReference)
unfolding decode_array decode_reference
decode_references schema value =
    decode_array schema value "entity references" (decode_reference schema)

-- The one algorithm has the code 0.
abbrev pub algorithm_code : EncryptionAlgorithm → ℕ
algorithm_code aes256_gcm = 0

unfoldable pub encode_encrypted_payload : EncryptedPayload → CanonicalValue
encode_encrypted_payload envelope = array (
    items (
      unsigned (algorithm_code envelope.algorithm)
      ∷ text envelope.key_id
      ∷ text envelope.nonce_base64url
      ∷ text envelope.ciphertext_base64url
      ∷ []))

-- The guard reads the algorithm only if there are four fields.
abbrev pub supported : EntitySchema → List CanonicalValue → Outcome Bool
supported schema fields =
    if length fields == 4
    then (unsigned_field schema (get_elem? fields 0) "encryption algorithm" >>= λ code.
        ok (code == 0))
    else ok false

unfoldable pub decode_encrypted_payload :
    EntitySchema → Option CanonicalValue → Outcome EncryptedPayload
unfolding required unsigned_field text_field
decode_encrypted_payload schema value = do
  present ← required schema value "encrypted payload"
  fields ← as_array schema "encrypted payload must be an array" present
  known ← supported schema fields
  refuse (not known) (invalid_canonical_body schema "unsupported encrypted payload")
  key_id ← text_field schema (get_elem? fields 1) "encryption key ID"
  nonce ← text_field schema (get_elem? fields 2) "encryption nonce"
  ciphertext ← text_field schema (get_elem? fields 3) "encrypted ciphertext"
  ok (record {
    algorithm = aes256_gcm;
    key_id = key_id;
    nonce_base64url = nonce;
    ciphertext_base64url = ciphertext;
  })

module _ {T : Type 0} where
  unfoldable pub encode_protected :
      ProtectedDocument T → (T → Outcome CanonicalValue) → Outcome CanonicalValue
  unfolding encode_encrypted_payload encode_all encode_resource
  encode_protected (public_document document) encode_public = do
    encoded ← encode_public document
    ok (array (items (unsigned 0 ∷ encoded ∷ array (items []) ∷ [])))
  encode_protected (private_document envelope resources) encode_public = ok (
      array (
        items (
          unsigned 1
          ∷ encode_encrypted_payload envelope
          ∷ array (items (encode_all encode_resource resources))
          ∷ [])))

  abbrev pub decode_public_document :
      EntitySchema
      → List CanonicalValue
      → (EntitySchema → CanonicalValue → Outcome T)
      → Outcome (ProtectedDocument T)
  decode_public_document schema fields decode_public = do
    present ← required schema (get_elem? fields 1) "public document"
    document ← decode_public schema present
    ok (public_document document)

  abbrev pub decode_private_document :
      EntitySchema → List CanonicalValue → List CanonicalValue → Outcome (ProtectedDocument T)
  decode_private_document schema fields resources = do
    envelope ← decode_encrypted_payload schema (get_elem? fields 1)
    decoded ← collect (decode_resource schema) resources
    ok (private_document envelope decoded)

  unfoldable pub decode_protected :
      EntitySchema
      → Option CanonicalValue
      → (EntitySchema → CanonicalValue → Outcome T)
      → Outcome (ProtectedDocument T)
  unfolding required unsigned_field decode_encrypted_payload collect decode_resource
  decode_protected schema value decode_public = do
    present ← required schema value "protected document"
    fields ← as_array schema "protected document must be an array" present
    refuse (not (length fields == 3))
        (invalid_canonical_body schema "protected document must contain three fields")
    listed ← required schema (get_elem? fields 2) "protected resources"
    resources ← as_array schema "protected resources must be an array" listed
    kind ← unsigned_field schema (get_elem? fields 0) "document visibility"
    if (kind == 0) && (length resources == 0)
        then decode_public_document schema fields decode_public
        else if kind == 1
        then decode_private_document schema fields resources
        else invalid schema "invalid protected-document visibility or resources"
