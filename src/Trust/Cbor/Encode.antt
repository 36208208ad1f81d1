-- ===== src/Trust/Cbor/Encode.antt =====
-- `to_canonical_cbor`. The vector that is written is passed on. An entry of a map holds the encoding of its
-- key and, for its value, the step that writes it.
use fractonica.Common.{
  ℕ, suc, ◌+◌, ltb, ◌==◌, Bool, true, false, not, ◌||◌, List, [], ◌∷◌, length, if◌then◌else◌,
}
use fractonica.Common.Int.{pos, negsuc}
use fractonica.Common.Arrays.{eqb_bytes}
use fractonica.Common.Result.{ok, ◌>>=◌, ◌>>◌, refuse}
use fractonica.Replication.Bytes.{cmp, less, equal, greater}
use fractonica.Trust.Value.{
  CanonicalValue, Items, Entries, null, boolean, integer, unsigned, float, bytes, text, array, map,
  nil, cons, end, entry, to_list, is_finite,
}
use fractonica.Trust.Cbor.{
  Outcome, Platform, max_canonical_depth, max_canonical_bytes, encoded_too_large, too_deep,
  duplicate_map_key, non_finite_float, be_bytes, push, encode_head, validate_container,
}

-- The check at the start of `encode_value`.
abbrev pub check_depth : ℕ → Outcome (Unit {0})
check_depth depth = refuse (ltb max_canonical_depth depth) (too_deep depth max_canonical_depth)

-- An encoded key, and the writing of the value at the end of a vector.
pub record KeyedValue : Type 0 where
  pub key : List ℕ
  pub write : List ℕ → Outcome (List ℕ)

-- `sort_by` of the encoded keys, which is stable.
unfoldable pub insert_entry : KeyedValue → List KeyedValue → List KeyedValue
unfolding cmp
insert_entry e [] = e ∷ []
insert_entry e (x ∷ xs) = elim (cmp e.key x.key) [
  | less _ ↦ e ∷ x ∷ xs
  | equal _ ↦ e ∷ x ∷ xs
  | greater _ ↦ x ∷ insert_entry e xs
]

unfoldable pub sort_entries : List KeyedValue → List KeyedValue
unfolding insert_entry
sort_entries [] = []
sort_entries (x ∷ xs) = insert_entry x (sort_entries xs)

-- `windows(2).any(|pair| pair[0].0 == pair[1].0)`
abbrev pub starts_with_key : List ℕ → List KeyedValue → Bool
starts_with_key key [] = false
starts_with_key key (x ∷ xs) = eqb_bytes key x.key

abbrev pub any_repeated : List KeyedValue → Bool
any_repeated [] = false
any_repeated (x ∷ xs) = starts_with_key x.key xs || any_repeated xs

-- `for (key, value) in entries`
unfoldable pub write_entries : List KeyedValue → List ℕ → Outcome (List ℕ)
unfolding push
write_entries [] output = ok output
write_entries (x ∷ xs) output = do
  output ← push output x.key
  output ← x.write output
  write_entries xs output

abbrev pub entry_count : Entries → ℕ
entry_count end = 0
entry_count (entry k v rest) = suc (entry_count rest)

module _ (platform : Platform) where
  open platform use {half_from_f64, half_to_f64, single_from_f64, single_to_f64}

  unfoldable pub encode_float : ℕ → List ℕ → Outcome (List ℕ)
  unfolding push
  encode_float value output = do
    refuse (not (is_finite value)) non_finite_float
    if half_to_f64 (half_from_f64 value) == value
        then (push output (249 ∷ []) >>= λ output. push output (be_bytes 2 (half_from_f64 value)))
        else if single_to_f64 (single_from_f64 value) == value
        then (push output (250 ∷ []) >>= λ output. push output (be_bytes 4 (single_from_f64 value)))
        else (push output (251 ∷ []) >>= λ output. push output (be_bytes 8 value))

  unfoldable mutual
    unfolding push encode_head validate_container encode_float sort_entries write_entries

    pub encode_value : CanonicalValue → ℕ → List ℕ → Outcome (List ℕ)
    encode_value null depth output = check_depth depth >> push output (246 ∷ [])
    encode_value (boolean false) depth output = check_depth depth >> push output (244 ∷ [])
    encode_value (boolean true) depth output = check_depth depth >> push output (245 ∷ [])
    encode_value (integer (pos n)) depth output = check_depth depth >> encode_head 0 n output
    encode_value (integer (negsuc n)) depth output = check_depth depth >> encode_head 1 n output
    encode_value (unsigned n) depth output = check_depth depth >> encode_head 0 n output
    encode_value (float bits) depth output = check_depth depth >> encode_float bits output
    encode_value (bytes value) depth output =
        check_depth depth >> (encode_head 2 (length value) output >>= λ output. push output value)
    encode_value (text value) depth output =
        check_depth depth >> (encode_head 3 (length value) output >>= λ output. push output value)
    encode_value (array values) depth output = do
      check_depth depth
      validate_container (length (to_list values))
      output ← encode_head 4 (length (to_list values)) output
      encode_items values (suc depth) output
    encode_value (map values) depth output = do
      check_depth depth
      validate_container (entry_count values)
      entries ← encode_keys values (suc depth) 0
      let sorted = sort_entries entries
      refuse (any_repeated sorted) duplicate_map_key
      output ← encode_head 5 (length sorted) output
      write_entries sorted output

    pub encode_items : Items → ℕ → List ℕ → Outcome (List ℕ)
    encode_items nil depth output = ok output
    encode_items (cons value rest) depth output =
        encode_value value depth output >>= λ output. encode_items rest depth output

    -- The loop over the entries, with the bytes of the keys so far.
    pub encode_keys : Entries → ℕ → ℕ → Outcome (List KeyedValue)
    encode_keys end depth total_key_bytes = ok []
    encode_keys (entry key value rest) depth total_key_bytes = do
      encoded_key ← encode_value key depth []
      let total = total_key_bytes + length encoded_key
      refuse (ltb max_canonical_bytes total) (encoded_too_large total max_canonical_bytes)
      others ← encode_keys rest depth total
      ok (record { key = encoded_key; write = encode_value value depth } ∷ others)

  unfoldable pub to_canonical_cbor : CanonicalValue → Outcome (List ℕ)
  unfolding encode_value
  to_canonical_cbor value = encode_value value 0 []
