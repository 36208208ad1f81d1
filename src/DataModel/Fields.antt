-- ===== src/DataModel/Fields.antt =====
-- canonical.rs: the encodings of single fields.
pub mod Exact
use Prim.Native.String.{String}
use fractonica.Common.{
  ℕ, ◌<◌, ◌^◌, ◌≡◌, Bool, true, false, ◌==◌, ltb, not, if◌then◌else◌, List, [], ◌∷◌, length, Option,
  none, some,
}
use fractonica.Common.Int.{ℤ, pos, negsuc}
use fractonica.Common.Result.{Result, ok, err, ◌>>=◌, ◌>>◌, refuse}
use fractonica.Trust.Value.{CanonicalValue, null, integer, unsigned, bytes, text, array, to_list}
use fractonica.Trust.Value
use fractonica.DataModel.{
  EntitySchema, DataModelError, invalid_canonical_body, negative_occurred_at, Outcome,
}

abbrev pub invalid {ℓ} : {A : Type ℓ} → EntitySchema → String → Outcome A
invalid schema detail = err (invalid_canonical_body schema detail)

unfoldable pub required : EntitySchema → Option CanonicalValue → String → Outcome CanonicalValue
required schema none detail = invalid schema detail
required schema (some value) detail = ok value

-- `i64::try_from` of a `u64`
abbrev pub to_i64 : EntitySchema → String → ℕ → Outcome ℤ
to_i64 schema detail value = if ltb value (2 ^ 63) then ok (pos value) else invalid schema detail

-- `u8::try_from` and `u16::try_from` of a `u64`, below the given bound.
abbrev pub try_from : EntitySchema → ℕ → String → ℕ → Outcome ℕ
try_from schema bound detail value = if ltb value bound then ok value else invalid schema detail

abbrev pub as_unsigned : EntitySchema → String → CanonicalValue → Outcome ℕ
as_unsigned schema detail (unsigned value) = ok value
as_unsigned schema detail _ = invalid schema detail

unfoldable pub unsigned_field : EntitySchema → Option CanonicalValue → String → Outcome ℕ
unfolding required
unsigned_field schema value detail = required schema value detail >>= as_unsigned schema detail

unfoldable pub nonnegative_i64 : EntitySchema → Option CanonicalValue → String → Outcome ℤ
unfolding unsigned_field
nonnegative_i64 schema value detail =
    unsigned_field schema value detail >>= to_i64 schema "nonnegative integer exceeds i64"

abbrev pub as_optional_i64 : EntitySchema → String → CanonicalValue → Outcome (Option ℤ)
as_optional_i64 schema detail null = ok none
as_optional_i64 schema detail (unsigned value) =
    to_i64 schema "optional timestamp exceeds i64" value >>= λ time. ok (some time)
as_optional_i64 schema detail _ = invalid schema detail

unfoldable pub optional_nonnegative_i64 :
    EntitySchema → Option CanonicalValue → String → Outcome (Option ℤ)
unfolding required
optional_nonnegative_i64 schema value detail =
    required schema value detail >>= as_optional_i64 schema detail

abbrev pub as_optional_unsigned : EntitySchema → String → CanonicalValue → Outcome (Option ℕ)
as_optional_unsigned schema detail null = ok none
as_optional_unsigned schema detail (unsigned value) = ok (some value)
as_optional_unsigned schema detail _ = invalid schema detail

unfoldable pub decode_optional_unsigned :
    EntitySchema → Option CanonicalValue → String → Outcome (Option ℕ)
unfolding required
decode_optional_unsigned schema value detail =
    required schema value detail >>= as_optional_unsigned schema detail

abbrev pub as_text : EntitySchema → String → CanonicalValue → Outcome (List ℕ)
as_text schema detail (text value) = ok value
as_text schema detail _ = invalid schema detail

unfoldable pub text_field : EntitySchema → Option CanonicalValue → String → Outcome (List ℕ)
unfolding required
text_field schema value detail = required schema value detail >>= as_text schema detail

abbrev pub as_optional_text : EntitySchema → String → CanonicalValue → Outcome (Option (List ℕ))
as_optional_text schema detail null = ok none
as_optional_text schema detail (text value) = ok (some value)
as_optional_text schema detail _ = invalid schema detail

unfoldable pub decode_optional_text :
    EntitySchema → Option CanonicalValue → String → Outcome (Option (List ℕ))
unfolding required
decode_optional_text schema value detail =
    required schema value detail >>= as_optional_text schema detail

-- `fixed_bytes::<N>`, with `size` for N.
abbrev pub as_fixed_bytes : EntitySchema → String → ℕ → CanonicalValue → Outcome (List ℕ)
as_fixed_bytes schema detail size (bytes value) =
    if length value == size then ok value else invalid schema detail
as_fixed_bytes schema detail size _ = invalid schema detail

unfoldable pub fixed_bytes : ℕ → EntitySchema → Option CanonicalValue → String → Outcome (List ℕ)
unfolding required
fixed_bytes size schema value detail =
    required schema value detail >>= as_fixed_bytes schema detail size

unfoldable pub nonnegative_integer : ℤ → Outcome CanonicalValue
nonnegative_integer (pos n) = ok (unsigned n)
nonnegative_integer (negsuc n) = err (negative_occurred_at (negsuc n))

unfoldable pub signed_integer : ℤ → CanonicalValue
signed_integer (pos n) = unsigned n
signed_integer (negsuc n) = integer (negsuc n)

abbrev pub as_signed : EntitySchema → String → CanonicalValue → Outcome ℤ
as_signed schema detail (integer value) = ok value
as_signed schema detail (unsigned value) = to_i64 schema "signed integer exceeds i64" value
as_signed schema detail _ = invalid schema detail

unfoldable pub decode_signed_integer : EntitySchema → Option CanonicalValue → String → Outcome ℤ
unfolding required
decode_signed_integer schema value detail = required schema value detail >>= as_signed schema detail

unfoldable pub optional_nonnegative_integer : Option ℤ → Outcome CanonicalValue
unfolding nonnegative_integer
optional_nonnegative_integer none = ok null
optional_nonnegative_integer (some value) = nonnegative_integer value

unfoldable pub optional_unsigned : Option ℕ → CanonicalValue
optional_unsigned none = null
optional_unsigned (some value) = unsigned value

unfoldable pub optional_text : Option (List ℕ) → CanonicalValue
optional_text none = null
optional_text (some value) = text value

abbrev pub as_array : EntitySchema → String → CanonicalValue → Outcome (List CanonicalValue)
as_array schema detail (array values) = ok (to_list values)
as_array schema detail _ = invalid schema detail

unfoldable pub exact_array :
    EntitySchema → CanonicalValue → ℕ → String → Outcome (List CanonicalValue)
exact_array schema value size detail = do
  fields ← as_array schema detail value
  refuse (not (length fields == size)) (invalid_canonical_body schema detail)
  ok fields

unfoldable pub body_array : EntitySchema → CanonicalValue → Outcome (List CanonicalValue)
body_array schema value = do
  fields ← as_array schema "schema body must be an array" value
  refuse (length fields == 0) (invalid_canonical_body schema "schema body must include a kind code")
  ok fields

-- `map(decode).collect::<Result<Vec<_>, _>>()`
unfoldable pub collect {ℓ} :
    {A : Type ℓ} → (CanonicalValue → Outcome A) → List CanonicalValue → Outcome (List A)
collect decode [] = ok []
collect decode (v ∷ vs) = do value ← decode v; rest ← collect decode vs; ok (value ∷ rest)

unfoldable pub decode_array {ℓ} :
    {A : Type ℓ}
    → EntitySchema
    → Option CanonicalValue
    → String
    → (CanonicalValue → Outcome A)
    → Outcome (List A)
unfolding required collect
decode_array schema value field decode = do
  present ← required schema value field
  values ← as_array schema "expected an array" present
  collect decode values
