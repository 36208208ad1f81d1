-- ===== src/Trust/Cbor/Unique.antt =====
-- What `from_canonical_cbor` accepts is the one encoding of the value.
use fractonica.Common.{ℕ, ◌≡◌, sym, ap, subst, ◌∙◌, ltb, not, List, length}
use fractonica.Common.Arrays.{eqb_bytes, not-false, eqb_bytes-equal}
use fractonica.Common.Result.{ok, ◌>>◌, refuse, >>-ok, >>=-ok, refuse-ok, ok-injective}
use fractonica.Trust.Value.{CanonicalValue}
use fractonica.Trust.Cbor.{
  Outcome, Platform, max_canonical_bytes, encoded_too_large, trailing_data, non_canonical,
}
use fractonica.Trust.Cbor.Encode.{to_canonical_cbor}
use fractonica.Trust.Cbor.Decode.{
  decoder, is_finished, decode_value, check_canonical, from_canonical_cbor,
}

module _ (platform : Platform) where
  -- Bytes that from_canonical_cbor accepts are what to_canonical_cbor writes of the value.
  to_canonical_cbor-from_canonical_cbor :
      (input : List ℕ) (value : CanonicalValue)
      → from_canonical_cbor platform input ≡ ok value
      → to_canonical_cbor platform value ≡ ok input
  unfolding from_canonical_cbor
  to_canonical_cbor-from_canonical_cbor input value h =
      let (_, h1) =
        >>-ok
          (refuse (ltb max_canonical_bytes (length input))
            (encoded_too_large (length input) max_canonical_bytes))
          _ h in
      let ((decoded, d), _, h2) =
        >>=-ok (decode_value platform 33 (decoder input)) (check_canonical platform input) h1 in
      let (_, h3) = >>-ok (refuse (not (is_finished d)) trailing_data) _ h2 in
      let (encoded, e, h4) = >>=-ok (to_canonical_cbor platform decoded) (agrees decoded) h3 in
      let (same, h5) = >>-ok (refuse (not (eqb_bytes encoded input)) non_canonical) _ h4 in
      subst (λ v. to_canonical_cbor platform v ≡ ok input) (ok-injective h5)
        (e
          ∙ ap ok (
              eqb_bytes-equal encoded input (
                not-false (eqb_bytes encoded input)
                  (refuse-ok (not (eqb_bytes encoded input)) non_canonical same))))
    where
      agrees : CanonicalValue → List ℕ → Outcome CanonicalValue
      agrees decoded encoded = refuse (not (eqb_bytes encoded input)) non_canonical >> ok decoded

  -- No two byte strings are accepted by from_canonical_cbor as the same value, where floats are
  -- the same if their bits are.
  pub from_canonical_cbor-injective :
      (a b : List ℕ) (value : CanonicalValue)
      → from_canonical_cbor platform a ≡ ok value
      → from_canonical_cbor platform b ≡ ok value
      → a ≡ b
  from_canonical_cbor-injective a b value h g = ok-injective (
      sym (to_canonical_cbor-from_canonical_cbor a value h)
      ∙ to_canonical_cbor-from_canonical_cbor b value g)
