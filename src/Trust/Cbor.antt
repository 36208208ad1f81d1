-- ===== src/Trust/Cbor.antt =====
-- The canonical CBOR of crates/fractonica-trust/src/lib.rs: limits, errors and the writing of heads. Arrays of
-- bytes are lists of numbers below 256.
pub mod Encode
pub mod Decode
pub mod Heads
pub mod Unique
pub mod Order
pub mod Normal
pub mod Reading
pub mod Floats
pub mod Parts
pub mod Pieces
pub mod Values
pub mod RoundTrip
use fractonica.Common.{
  ℕ, zero, suc, ◌+◌, ◌*◌, ◌/◌, ◌%◌, ◌^◌, bit_or, ltb, leb, Bool, List, [], ◌∷◌, ◌++◌, length,
  if◌then◌else◌,
}
use fractonica.Common.Words.{shl_u}
use fractonica.Common.Result.{Result, ok, err, ◌>>=◌, ◌>>◌, refuse}

abbrev pub max_canonical_depth : ℕ
max_canonical_depth = 32

abbrev pub max_canonical_container_items : ℕ
max_canonical_container_items = 4096

abbrev pub max_canonical_bytes : ℕ
max_canonical_bytes = 2 * 1024 * 1024

-- The numbers are those of the fields: the size and its maximum.
pub data CanonicalCborError : Type 0 where
  encoded_too_large : ℕ → ℕ → CanonicalCborError
  too_deep : ℕ → ℕ → CanonicalCborError
  container_too_large : ℕ → ℕ → CanonicalCborError
  duplicate_map_key : CanonicalCborError
  non_canonical_map_order : CanonicalCborError
  non_finite_float : CanonicalCborError
  non_canonical : CanonicalCborError
  unexpected_end : CanonicalCborError
  trailing_data : CanonicalCborError
  unsupported_type : CanonicalCborError
  indefinite_or_reserved : CanonicalCborError
  length_out_of_range : CanonicalCborError
  integer_out_of_range : CanonicalCborError
  invalid_utf8 : CanonicalCborError

abbrev pub Outcome {ℓ} : Type ℓ → Type ℓ
Outcome = Result CanonicalCborError

-- What the code does with an `f64` beside reading its bits: the conversions of the crate half, of
-- `as f32` and of `f64::from`, as functions of bits, and the check of UTF-8.
pub record Platform : Type 0 where
  pub half_from_f64 : ℕ → ℕ
  pub half_to_f64 : ℕ → ℕ
  pub single_from_f64 : ℕ → ℕ
  pub single_to_f64 : ℕ → ℕ
  pub is_utf8 : List ℕ → Bool

-- `to_be_bytes` of a number of so many bytes, and `from_be_bytes`.
abbrev pub be_bytes : ℕ → ℕ → List ℕ
be_bytes zero value = []
be_bytes (suc k) value = value / 256 ^ k % 256 ∷ be_bytes k value

abbrev pub from_be_bytes : ℕ → List ℕ → ℕ
from_be_bytes value [] = value
from_be_bytes value (b ∷ bs) = from_be_bytes (value * 256 + b) bs

unfoldable pub push : List ℕ → List ℕ → Outcome (List ℕ)
push output bytes =
    if ltb max_canonical_bytes (length output + length bytes)
    then err (encoded_too_large (length output + length bytes) max_canonical_bytes)
    else ok (output ++ bytes)

-- `value as u8` is the value modulo 2 ^ 8, and the bytes of `value as u16` and `value as u32` are its last.
unfoldable pub encode_head : ℕ → ℕ → List ℕ → Outcome (List ℕ)
unfolding push
encode_head major value output =
    let lead = shl_u 8 major 5 in
    if leb value 23
    then push output (bit_or lead (value % 2 ^ 8) ∷ [])
    else if leb value 255
    then push output (bit_or lead 24 ∷ value % 2 ^ 8 ∷ [])
    else if leb value 65535
    then (push output (bit_or lead 25 ∷ []) >>= λ output. push output (be_bytes 2 value))
    else if leb value 4294967295
    then (push output (bit_or lead 26 ∷ []) >>= λ output. push output (be_bytes 4 value))
    else (push output (bit_or lead 27 ∷ []) >>= λ output. push output (be_bytes 8 value))

unfoldable pub validate_container : ℕ → Outcome (Unit {0})
validate_container count =
    refuse (ltb max_canonical_container_items count)
      (container_too_large count max_canonical_container_items)
