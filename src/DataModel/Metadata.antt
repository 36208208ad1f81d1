-- ===== src/DataModel/Metadata.antt =====
-- canonical.rs: metadata objects, which are JSON maps.
pub mod Sorted
pub mod RoundTrip
use Prim.Native.String.{String}
use fractonica.Common.{
  ℕ, ◌%◌, ◌/◌, ◌^◌, Bool, true, false, not, ◌==◌, List, Option, none, some, if◌then◌else◌,
}
use fractonica.Common.Int.{ℤ, pos, negsuc}
use fractonica.Common.Result.{ok, err, ◌>>=◌, ◌>>◌, refuse}
use fractonica.Replication.Bytes.{cmp, less, equal, greater}
use fractonica.Trust.Value.{
  is_finite, CanonicalValue, Items, Entries, null, boolean, integer, unsigned, float, bytes, text,
  array, map, nil, cons, end, entry,
}
use fractonica.DataModel.{
  EntitySchema, invalid_canonical_body, unsupported_metadata_number, Outcome,
}
use fractonica.DataModel.Json.{Value, Values, Members, Numbers, member}
use fractonica.DataModel.Json
use fractonica.DataModel.Fields.{invalid, required}

-- `contains_key` and `insert` of a map.
unfoldable pub contains : {N : Type 0} → List ℕ → Members N → Bool
unfolding cmp
contains key Json.end = false
contains key (member k v rest) = elim (cmp key k) [
  | less _ ↦ false
  | equal _ ↦ true
  | greater _ ↦ contains key rest
]

unfoldable pub insert : {N : Type 0} → List ℕ → Value N → Members N → Members N
unfolding cmp
insert key value Json.end = member key value Json.end
insert key value (member k v rest) = elim (cmp key k) [
  | less _ ↦ member key value (member k v rest)
  | equal _ ↦ member key value rest
  | greater _ ↦ member k v (insert key value rest)
]

abbrev pub as_key : EntitySchema → String → CanonicalValue → Outcome (List ℕ)
as_key schema detail (text key) = ok key
as_key schema detail _ = invalid schema detail

module _ (numbers : Numbers) where
  open numbers use {Number, as_i64, as_u64, as_f64, to_string, from_i64, from_u64, from_f64}

  abbrev pub by_f64 : Number → Option ℕ → Outcome CanonicalValue
  by_f64 n (some value) =
      if is_finite value then ok (float value) else err (unsupported_metadata_number (to_string n))
  by_f64 n none = err (unsupported_metadata_number (to_string n))

  abbrev pub by_u64 : Option ℕ → Outcome CanonicalValue → Outcome CanonicalValue
  by_u64 (some value) rest = ok (unsigned value)
  by_u64 none rest = rest

  abbrev pub by_i64 : Option ℤ → Outcome CanonicalValue → Outcome CanonicalValue
  by_i64 (some (negsuc n)) rest = ok (integer (negsuc n))
  by_i64 (some (pos n)) rest = rest
  by_i64 none rest = rest

  unfoldable pub encode_number : Number → Outcome CanonicalValue
  encode_number n = by_i64 (as_i64 n) (by_u64 (as_u64 n) (by_f64 n (as_f64 n)))

  unfoldable mutual
    unfolding encode_number

    pub encode_json_value : Value Number → Outcome CanonicalValue
    encode_json_value Json.null = ok null
    encode_json_value (Json.boolean value) = ok (boolean value)
    encode_json_value (Json.number n) = encode_number n
    encode_json_value (Json.string value) = ok (text value)
    encode_json_value (Json.array values) = do encoded ← encode_values values; ok (array encoded)
    encode_json_value (Json.object values) = do encoded ← encode_members values; ok (map encoded)

    pub encode_values : Values Number → Outcome Items
    encode_values Json.nil = ok nil
    encode_values (Json.cons value rest) = do
      encoded ← encode_json_value value
      others ← encode_values rest
      ok (cons encoded others)

    pub encode_members : Members Number → Outcome Entries
    encode_members Json.end = ok end
    encode_members (member key value rest) = do
      encoded ← encode_json_value value
      others ← encode_members rest
      ok (entry (text key) encoded others)

  unfoldable pub encode_metadata_object : Members Number → Outcome CanonicalValue
  unfolding encode_json_value
  encode_metadata_object values = do encoded ← encode_members values; ok (map encoded)

  abbrev pub as_number : EntitySchema → Option Number → Outcome (Value Number)
  as_number schema (some n) = ok (Json.number n)
  as_number schema none = invalid schema "metadata contains a non-finite number"

  unfoldable mutual
    unfolding contains insert

    pub decode_json_value : EntitySchema → CanonicalValue → Outcome (Value Number)
    decode_json_value schema null = ok Json.null
    decode_json_value schema (boolean value) = ok (Json.boolean value)
    decode_json_value schema (integer value) = ok (Json.number (from_i64 value))
    decode_json_value schema (unsigned value) = ok (Json.number (from_u64 value))
    decode_json_value schema (float value) = as_number schema (from_f64 value)
    decode_json_value schema (text value) = ok (Json.string value)
    decode_json_value schema (array values) = do
      decoded ← decode_values schema values
      ok (Json.array decoded)
    decode_json_value schema (map entries) = do
      decoded ← decode_members schema Json.end entries
      ok (Json.object decoded)
    decode_json_value schema (bytes _) = invalid schema "metadata cannot contain byte strings"

    pub decode_values : EntitySchema → Items → Outcome (Values Number)
    decode_values schema nil = ok Json.nil
    decode_values schema (cons value rest) = do
      decoded ← decode_json_value schema value
      others ← decode_values schema rest
      ok (Json.cons decoded others)

    -- `for (key, value) in entries`, into the map so far.
    pub decode_members : EntitySchema → Members Number → Entries → Outcome (Members Number)
    decode_members schema values end = ok values
    decode_members schema values (entry key value rest) = do
      name ← as_key schema "metadata map keys must be text" key
      decoded ← decode_json_value schema value
      refuse (contains name values)
          (invalid_canonical_body schema "metadata map keys must be unique")
      decode_members schema (insert name decoded values) rest

  -- The entries of a metadata object, collected into the map so far.
  unfoldable pub decode_entries : EntitySchema → Members Number → Entries → Outcome (Members Number)
  unfolding insert decode_json_value
  decode_entries schema values end = ok values
  decode_entries schema values (entry key value rest) = do
    name ← as_key schema "record metadata keys must be text" key
    decoded ← decode_json_value schema value
    decode_entries schema (insert name decoded values) rest

  abbrev pub as_map : EntitySchema → CanonicalValue → Outcome Entries
  as_map schema (map entries) = ok entries
  as_map schema _ = invalid schema "record metadata must be a map"

  unfoldable pub decode_metadata_object :
      EntitySchema → Option CanonicalValue → Outcome (Members Number)
  unfolding required decode_entries
  decode_metadata_object schema value = do
    present ← required schema value "record metadata"
    entries ← as_map schema present
    decode_entries schema Json.end entries
