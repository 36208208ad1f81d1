-- ===== src/DataModel/Metadata/RoundTrip.antt =====
-- Metadata is read back from its encoding.
use fractonica.Common.{ℕ, ◌≡◌, refl, sym, ap, ◌∙◌, true, Option, none, some}
use fractonica.Common.Int.{ℤ, pos, negsuc}
use fractonica.Common.Result.{ok}
use fractonica.Trust.Value.{
  is_finite, CanonicalValue, Items, Entries, null, boolean, integer, unsigned, float, text, array,
  map, nil, cons, end, entry,
}
use fractonica.DataModel.{EntitySchema, Outcome}
use fractonica.DataModel.Json.{Value, Values, Members, Numbers, member}
use fractonica.DataModel.Json
use fractonica.DataModel.Metadata.{
  by_i64, by_u64, by_f64, encode_number, encode_json_value, encode_values, encode_members,
  encode_metadata_object, decode_json_value, decode_values, decode_members, decode_entries,
  decode_metadata_object,
}
use fractonica.DataModel.Metadata.Sorted.{
  IsValue, AreValues, IsObject, append, Separate, Separate-end, append-member, append-end,
  Separate-append, contains-AllBefore, insert-AllBefore,
}

abbrev pub NotNegative : Option ℤ → Type 0
NotNegative (some (negsuc n)) = ⊥
NotNegative _ = Unit {0}

-- What a `serde_json::Number` is: a negative integer, a natural number or a finite `f64`, each of
-- which it is converted to and made from without loss.
pub data Kind (numbers : Numbers) (n : numbers.Number) : Type 0 where
  negative :
      (k : ℕ)
      → numbers.as_i64 n ≡ some (negsuc k)
      → numbers.from_i64 (negsuc k) ≡ n
      → Kind numbers n
  natural :
      (k : ℕ)
      → NotNegative (numbers.as_i64 n)
      → numbers.as_u64 n ≡ some k
      → numbers.from_u64 k ≡ n
      → Kind numbers n
  real :
      (bits : ℕ)
      → numbers.as_i64 n ≡ none
      → numbers.as_u64 n ≡ none
      → numbers.as_f64 n ≡ some bits
      → is_finite bits ≡ true
      → numbers.from_f64 bits ≡ some n
      → Kind numbers n

module _ (numbers : Numbers) (kind : (n : numbers.Number) → Kind numbers n) where
  open numbers use {Number, as_i64, as_u64, as_f64}

  by_i64-NotNegative :
      (z : Option ℤ) (rest : Outcome CanonicalValue) → NotNegative z → by_i64 numbers z rest ≡ rest
  by_i64-NotNegative none rest h = refl
  by_i64-NotNegative (some (pos n)) rest h = refl
  by_i64-NotNegative (some (negsuc n)) rest h = absurd h

  encode_number-Kind :
      (n : Number)
      → Kind numbers n
      → (v : CanonicalValue) × (encode_number numbers n ≡ ok v)
        × ((schema : EntitySchema) → decode_json_value numbers schema v ≡ ok (Json.number n))
  unfolding encode_number decode_json_value
  encode_number-Kind n (negative k e f) =
      (integer (negsuc k), rw e refl, λ schema. ap (λ m. ok (Json.number m)) f)
  encode_number-Kind n (natural k h e f) = (
    unsigned k,
    rw (by_i64-NotNegative (as_i64 n) (by_u64 numbers (as_u64 n) (by_f64 numbers n (as_f64 n))) h)
        (rw e refl),
    λ schema. ap (λ m. ok (Json.number m)) f,
  )
  encode_number-Kind n (real bits e e' e'' f g) =
      (float bits, rw e (rw e' (rw e'' (rw f refl))), λ schema. rw g refl)

  mutual
    unfolding encode_json_value decode_json_value decode_entries

    value_read :
        (v : Value Number)
        → IsValue v
        → (e : CanonicalValue) × (encode_json_value numbers v ≡ ok e)
          × ((schema : EntitySchema) → decode_json_value numbers schema e ≡ ok v)
    value_read Json.null h = (null, refl, λ schema. refl)
    value_read (Json.boolean b) h = (boolean b, refl, λ schema. refl)
    value_read (Json.number n) h = encode_number-Kind n (kind n)
    value_read (Json.string s) h = (text s, refl, λ schema. refl)
    value_read (Json.array vs) h =
        let (es, p, q) = values_read vs h in (array es, rw p refl, λ schema. rw (q schema) refl)
    value_read (Json.object m) h =
        let (es, p, q) = members_read m h in
        (map es, rw p refl, λ schema. rw (q schema Json.end (Separate-end m)).0 refl)

    values_read :
        (vs : Values Number)
        → AreValues vs
        → (es : Items) × (encode_values numbers vs ≡ ok es)
          × ((schema : EntitySchema) → decode_values numbers schema es ≡ ok vs)
    values_read Json.nil h = (nil, refl, λ schema. refl)
    values_read (Json.cons v vs) (h, hs) =
        let (e, p, q) = value_read v h in
        let (es, ps, qs) = values_read vs hs in
        (cons e es, rw p (rw ps refl), λ schema. rw (q schema) (rw (qs schema) refl))

    members_read :
        (m : Members Number)
        → IsObject m
        → (es : Entries) × (encode_members numbers m ≡ ok es)
          × ((schema : EntitySchema) (acc : Members Number)
              → Separate acc m
              → (decode_members numbers schema acc es ≡ ok (append acc m))
                × (decode_entries numbers schema acc es ≡ ok (append acc m)))
    members_read Json.end h =
        (end, refl, λ schema acc s. (ap ok (sym (append-end acc)), ap ok (sym (append-end acc))))
    members_read (member k v rest) (a, h, hs) =
        let (e, p, q) = value_read v h in
        let (es, ps, qs) = members_read rest hs in
        (
          entry (text k) e es,
          rw p (rw ps refl),
          λ schema acc s.
              let (ds, fs) =
                qs schema (append acc (member k v Json.end)) (Separate-append acc k v rest s.1 a) in
              (
                rw (q schema) (
                    rw (contains-AllBefore acc k s.0) (
                      rw (insert-AllBefore acc k v s.0) (ds ∙ ap ok (append-member acc k v rest)))),
                rw (q schema)
                    (rw (insert-AllBefore acc k v s.0) (fs ∙ ap ok (append-member acc k v rest))),
              ),
        )

  -- What `decode_metadata_object` reads back.
  pub metadata_read :
      (m : Members Number)
      → IsObject m
      → (e : CanonicalValue) × (encode_metadata_object numbers m ≡ ok e)
        × ((schema : EntitySchema) → decode_metadata_object numbers schema (some e) ≡ ok m)
  unfolding encode_metadata_object decode_metadata_object
  metadata_read m h =
      let (es, p, q) = members_read m h in
      (map es, rw p refl, λ schema. (q schema Json.end (Separate-end m)).1)
