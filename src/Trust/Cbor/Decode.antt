-- ===== src/Trust/Cbor/Decode.antt =====
-- `from_canonical_cbor` and its decoder. A decoder that is changed is returned. The depth counts up to
-- the maximum, so the recursion is on the levels that are left: at depth d, 33 - d of them.
use fractonica.Common.{
  ℕ, zero, suc, ◌+◌, ◌-◌, ◌^◌, bit_and, ltb, leb, ◌==◌, Bool, true, false, not, List, [], ◌∷◌,
  length, take, drop, get_elem?, Option, none, some, if◌then◌else◌,
}
use fractonica.Common.Int.{negsuc}
use fractonica.Common.Words.{shr}
use fractonica.Common.Arrays.{eqb_bytes}
use fractonica.Common.Result.{ok, err, ◌>>=◌, ◌>>◌, refuse, ok_or}
use fractonica.Replication.Bytes.{cmp, Comparison, less, equal, greater}
use fractonica.Trust.Value.{
  CanonicalValue, null, boolean, integer, unsigned, float, bytes, text, array, map, Entries, end,
  entry, items, is_finite,
}
use fractonica.Trust.Cbor.{
  Outcome, Platform, max_canonical_depth, max_canonical_bytes, encoded_too_large, too_deep,
  non_canonical_map_order, non_finite_float, non_canonical, unexpected_end, trailing_data,
  unsupported_type, indefinite_or_reserved, length_out_of_range, integer_out_of_range, invalid_utf8,
  from_be_bytes, validate_container,
}
use fractonica.Trust.Cbor.Encode.{to_canonical_cbor}

pub record Decoder : Type 0 where
  pub input : List ℕ
  pub offset : ℕ

abbrev pub Step {ℓ} : Type ℓ → Type ℓ
Step A = Decoder → Outcome (A × Decoder)

-- `Decoder::new`
abbrev pub decoder : List ℕ → Decoder
decoder input = record { input = input; offset = 0 }

abbrev pub is_finished : Decoder → Bool
is_finished d = d.offset == length d.input

unfoldable pub take_byte : Step ℕ
take_byte d = do
  byte ← ok_or (get_elem? d.input d.offset) unexpected_end
  ok (byte, record d { offset = d.offset + 1 })

-- `take`, with `bytes.get(offset..end)` for an offset inside the bytes. A usize has 64 bits.
unfoldable pub take_bytes : ℕ → Step (List ℕ)
take_bytes size d = do
  refuse (not (ltb (d.offset + size) (2 ^ 64))) length_out_of_range
  refuse (ltb (length d.input) (d.offset + size)) unexpected_end
  ok (take size (drop d.offset d.input), record d { offset = d.offset + size })

-- The number of so many bytes that are taken, which is not below the minimum.
abbrev pub wide : ℕ → ℕ → Step ℕ
wide size minimum d = do
  (taken, d) ← take_bytes size d
  refuse (ltb (from_be_bytes 0 taken) minimum) non_canonical
  ok (from_be_bytes 0 taken, d)

unfoldable pub decode_argument : ℕ → Step ℕ
unfolding take_byte take_bytes
decode_argument additional d =
    if leb additional 23
    then ok (additional, d)
    else if additional == 24
    then (take_byte d >>= λ p. refuse (ltb p.0 24) non_canonical >> ok p)
    else if additional == 25
    then wide 2 256 d
    else if additional == 26
    then wide 4 65536 d
    else if additional == 27
    then wide 8 4294967296 d
    else err indefinite_or_reserved

-- `usize::try_from`, where a usize has 64 bits, as the argument has.
unfoldable pub decode_length : ℕ → Step ℕ
unfolding decode_argument
decode_length additional d = decode_argument additional d

unfoldable pub ensure_finite : ℕ → Outcome (Unit {0})
ensure_finite value = refuse (not (is_finite value)) non_finite_float

-- `i64::try_from(-1 - encoded)`
abbrev pub negative : ℕ → Outcome CanonicalValue
negative encoded =
    if ltb encoded (2 ^ 63) then ok (integer (negsuc encoded)) else err integer_out_of_range

-- `for _ in 0..count`, over the items of an array.
unfoldable pub decode_items : Step CanonicalValue → ℕ → Step (List CanonicalValue)
decode_items decode zero d = ok ([], d)
decode_items decode (suc count) d = do
  (value, d) ← decode d
  (values, d) ← decode_items decode count d
  ok (value ∷ values, d)

abbrev pub is_less : {a b : List ℕ} → Comparison a b → Bool
is_less (less _) = true
is_less (equal _) = false
is_less (greater _) = false

-- Whether the key is not after the one before it, if there is one.
unfoldable pub out_of_order : Option (List ℕ) → List ℕ → Bool
unfolding cmp
out_of_order none key_bytes = false
out_of_order (some previous) key_bytes = not (is_less (cmp previous key_bytes))

-- The loop over the entries of a map, with the bytes of the key before.
unfoldable pub decode_entries : Step CanonicalValue → ℕ → Option (List ℕ) → Step Entries
unfolding out_of_order
decode_entries decode zero previous_key d = ok (end, d)
decode_entries decode (suc count) previous_key d = do
  (key, e) ← decode d
  let key_bytes = take (e.offset - d.offset) (drop d.offset d.input)
  refuse (out_of_order previous_key key_bytes) non_canonical_map_order
  (value, e) ← decode e
  (rest, e) ← decode_entries decode count (some key_bytes) e
  ok (entry key value rest, e)

module _ (platform : Platform) where
  open platform use {half_from_f64, half_to_f64, single_from_f64, single_to_f64, is_utf8}

  unfoldable pub decode_simple : ℕ → Step CanonicalValue
  unfolding take_bytes ensure_finite
  decode_simple additional d =
      if additional == 20
      then ok (boolean false, d)
      else if additional == 21
      then ok (boolean true, d)
      else if additional == 22
      then ok (null, d)
      else if additional == 25
      then (do
        (taken, d) ← take_bytes 2 d
        let value = half_to_f64 (from_be_bytes 0 taken)
        ensure_finite value
        ok (float value, d))
      else if additional == 26
      then (do
        (taken, d) ← take_bytes 4 d
        let value = single_to_f64 (from_be_bytes 0 taken)
        ensure_finite value
        refuse (half_to_f64 (half_from_f64 value) == value) non_canonical
        ok (float value, d))
      else if additional == 27
      then (do
        (taken, d) ← take_bytes 8 d
        let value = from_be_bytes 0 taken
        ensure_finite value
        refuse (single_to_f64 (single_from_f64 value) == value) non_canonical
        ok (float value, d))
      else err unsupported_type

  -- The match of `decode_value` on the major type, with the decoder of what is below.
  unfoldable pub decode_major : Step CanonicalValue → ℕ → ℕ → Step CanonicalValue
  unfolding decode_argument decode_length take_bytes validate_container decode_items decode_entries
      decode_simple
  decode_major below major additional d =
      if major == 0
      then (do (value, d) ← decode_argument additional d; ok (unsigned value, d))
      else if major == 1
      then (do (encoded, d) ← decode_argument additional d; value ← negative encoded; ok (value, d))
      else if major == 2
      then (do
        (size, d) ← decode_length additional d
        (taken, d) ← take_bytes size d
        ok (bytes taken, d))
      else if major == 3
      then (do
        (size, d) ← decode_length additional d
        (taken, d) ← take_bytes size d
        refuse (not (is_utf8 taken)) invalid_utf8
        ok (text taken, d))
      else if major == 4
      then (do
        (count, d) ← decode_length additional d
        validate_container count
        (values, d) ← decode_items below count d
        ok (array (items values), d))
      else if major == 5
      then (do
        (count, d) ← decode_length additional d
        validate_container count
        (values, d) ← decode_entries below count none d
        ok (map values, d))
      else if major == 7
      then decode_simple additional d
      else err unsupported_type

  unfoldable pub decode_value : ℕ → Step CanonicalValue
  unfolding take_byte decode_major
  decode_value zero d = err (too_deep (suc max_canonical_depth) max_canonical_depth)
  decode_value (suc levels) d = do
    (lead, d) ← take_byte d
    decode_major (decode_value levels) (shr lead 5) (bit_and lead 31) d

  -- The checks of what was decoded: nothing is left, and the value is encoded as the input.
  abbrev pub check_canonical : List ℕ → CanonicalValue × Decoder → Outcome CanonicalValue
  check_canonical input (value, d) = do
    refuse (not (is_finished d)) trailing_data
    encoded ← to_canonical_cbor platform value
    refuse (not (eqb_bytes encoded input)) non_canonical
    ok value

  unfoldable pub from_canonical_cbor : List ℕ → Outcome CanonicalValue
  unfolding decode_value to_canonical_cbor
  from_canonical_cbor input = do
    refuse (ltb max_canonical_bytes (length input))
        (encoded_too_large (length input) max_canonical_bytes)
    decoded ← decode_value (suc max_canonical_depth) (decoder input)
    check_canonical input decoded
