-- ===== src/DataModel/Fields/Exact.antt =====
-- canonical.rs: each decoder of a field reads what its encoder writes.
use Prim.Native.String.{String}
use fractonica.Common.{
  ℕ, ◌<◌, ◌^◌, ◌≡◌, refl, ap, Bool, true, false, ltb, lt→ltb, ◌==◌, arith, List, [], ◌∷◌, length,
  Option, none, some, if◌then◌else◌,
}
use fractonica.Common.Int.{ℤ, pos, negsuc, IsI64}
use fractonica.Common.Result.{ok, ◌>>=◌}
use fractonica.Trust.Value.{CanonicalValue, null, unsigned, bytes, array, items, to_list-items}
use fractonica.DataModel.{EntitySchema, Outcome}
use fractonica.DataModel.Fields.{
  invalid, to_i64, try_from, nonnegative_i64, optional_nonnegative_i64, nonnegative_integer,
  optional_nonnegative_integer, fixed_bytes, decode_signed_integer, signed_integer,
  decode_optional_text, optional_text, decode_optional_unsigned, optional_unsigned, decode_array,
  collect,
}
use fractonica.DataModel.Parts.{encode_all}

-- The times that are written: those of an `i64` that are not negative.
abbrev pub IsTime : ℤ → Type 0
IsTime (pos n) = n < 2 ^ 63
IsTime (negsuc n) = ⊥

abbrev pub IsOptionalTime : Option ℤ → Type 0
IsOptionalTime none = Unit {0}
IsOptionalTime (some t) = IsTime t

-- The unsigned value of a time.
abbrev pub time_value : ℤ → CanonicalValue
time_value (pos n) = unsigned n
time_value (negsuc n) = unsigned 0

abbrev pub optional_time_value : Option ℤ → CanonicalValue
optional_time_value none = null
optional_time_value (some t) = time_value t

pub to_i64-ok :
    (schema : EntitySchema) (detail : String) (n : ℕ)
    → n < 2 ^ 63
    → to_i64 schema detail n ≡ ok (pos n)
to_i64-ok schema detail n h = by_test (ltb n (2 ^ 63)) (lt→ltb n (2 ^ 63) h)
  where
    by_test : (b : Bool) → b ≡ true → (if b then ok (pos n) else invalid schema detail) ≡ ok (pos n)
    by_test true e = refl
    by_test false e = absurd cc

pub try_from-ok :
    (schema : EntitySchema) (bound : ℕ) (detail : String) (n : ℕ)
    → n < bound
    → try_from schema bound detail n ≡ ok n
try_from-ok schema bound detail n h = by_test (ltb n bound) (lt→ltb n bound h)
  where
    by_test : (b : Bool) → b ≡ true → (if b then ok n else invalid schema detail) ≡ ok n
    by_test true e = refl
    by_test false e = absurd cc

pub nonnegative_integer-IsTime : (t : ℤ) → IsTime t → nonnegative_integer t ≡ ok (time_value t)
unfolding nonnegative_integer
nonnegative_integer-IsTime (pos n) h = refl
nonnegative_integer-IsTime (negsuc n) h = absurd h

pub optional_nonnegative_integer-IsTime :
    (t : Option ℤ) → IsOptionalTime t → optional_nonnegative_integer t ≡ ok (optional_time_value t)
unfolding optional_nonnegative_integer
optional_nonnegative_integer-IsTime none h = refl
optional_nonnegative_integer-IsTime (some t) h = nonnegative_integer-IsTime t h

module _ (schema : EntitySchema) where
  pub nonnegative_i64-time_value :
      (t : ℤ) (detail : String)
      → IsTime t
      → nonnegative_i64 schema (some (time_value t)) detail ≡ ok t
  unfolding nonnegative_i64
  nonnegative_i64-time_value (pos n) detail h =
      to_i64-ok schema "nonnegative integer exceeds i64" n h
  nonnegative_i64-time_value (negsuc n) detail h = absurd h

  pub optional_nonnegative_i64-time_value :
      (t : Option ℤ) (detail : String)
      → IsOptionalTime t
      → optional_nonnegative_i64 schema (some (optional_time_value t)) detail ≡ ok t
  unfolding optional_nonnegative_i64
  optional_nonnegative_i64-time_value none detail h = refl
  optional_nonnegative_i64-time_value (some (pos n)) detail h =
      ap (λ r. r >>= λ time. ok (some time)) (to_i64-ok schema "optional timestamp exceeds i64" n h)
  optional_nonnegative_i64-time_value (some (negsuc n)) detail h = absurd h

  pub decode_signed_integer-signed_integer :
      (z : ℤ) (detail : String)
      → IsI64 z
      → decode_signed_integer schema (some (signed_integer z)) detail ≡ ok z
  unfolding decode_signed_integer signed_integer
  decode_signed_integer-signed_integer (pos n) detail (h, _) =
      to_i64-ok schema "signed integer exceeds i64" n h
  decode_signed_integer-signed_integer (negsuc n) detail h = refl

  pub fixed_bytes-bytes :
      (size : ℕ) (value : List ℕ) (detail : String)
      → length value ≡ size
      → fixed_bytes size schema (some (bytes value)) detail ≡ ok value
  unfolding fixed_bytes
  fixed_bytes-bytes size value detail h = by_test (length value == size) (ground arith)
    where
      by_test : (b : Bool) → b ≡ true → (if b then ok value else invalid schema detail) ≡ ok value
      by_test true e = refl
      by_test false e = absurd cc

  pub decode_optional_text-optional_text :
      (value : Option (List ℕ)) (detail : String)
      → decode_optional_text schema (some (optional_text value)) detail ≡ ok value
  unfolding decode_optional_text optional_text
  decode_optional_text-optional_text none detail = refl
  decode_optional_text-optional_text (some value) detail = refl

  pub decode_optional_unsigned-optional_unsigned :
      (value : Option ℕ) (detail : String)
      → decode_optional_unsigned schema (some (optional_unsigned value)) detail ≡ ok value
  unfolding decode_optional_unsigned optional_unsigned
  decode_optional_unsigned-optional_unsigned none detail = refl
  decode_optional_unsigned-optional_unsigned (some value) detail = refl

-- Every element is read back from its encoding.
abbrev pub Reads {ℓ} :
    {A : Type ℓ} → (A → CanonicalValue) → (CanonicalValue → Outcome A) → List A → Type ℓ
Reads encode decode [] = Unit
Reads encode decode (x ∷ xs) = (decode (encode x) ≡ ok x) × Reads encode decode xs

module _ {ℓ} {A : Type ℓ} (encode : A → CanonicalValue) (decode : CanonicalValue → Outcome A) where
  pub collect-encode_all :
      (xs : List A) → Reads encode decode xs → collect decode (encode_all encode xs) ≡ ok xs
  unfolding collect encode_all
  collect-encode_all [] h = refl
  collect-encode_all (x ∷ xs) (e, h) = rw (e, collect-encode_all xs h) refl

  pub decode_array-encode_all :
      (schema : EntitySchema) (field : String) (xs : List A)
      → Reads encode decode xs
      → decode_array schema (some (array (items (encode_all encode xs)))) field decode ≡ ok xs
  unfolding decode_array
  decode_array-encode_all schema field xs h =
      rw (to_list-items (encode_all encode xs)) (collect-encode_all xs h)

  pub Reads-every : (xs : List A) → ((x : A) → decode (encode x) ≡ ok x) → Reads encode decode xs
  Reads-every [] h = tt
  Reads-every (x ∷ xs) h = (h x, Reads-every xs h)
