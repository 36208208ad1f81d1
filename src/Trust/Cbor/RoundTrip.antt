-- ===== src/Trust/Cbor/RoundTrip.antt =====
-- A value that is written as canonical CBOR is read back.
use fractonica.Common.{
  append-nil, ℕ, ◌≤◌, ◌≡◌, refl, sym, ap, subst, ◌∙◌, Bool, false, not, ◌==◌, ltb, List, [], ◌++◌,
  length, arith,
}
use fractonica.Common.Arrays.{equal-eqb_bytes}
use fractonica.Common.Result.{ok, ◌>>=◌, ◌>>◌, refuse}
use fractonica.Trust.Value.{CanonicalValue}
use fractonica.Trust.Cbor.{
  Platform, Outcome, CanonicalCborError, encoded_too_large, max_canonical_bytes,
}
use fractonica.Trust.Cbor.Encode.{to_canonical_cbor}
use fractonica.Trust.Cbor.Decode.{decoder, decode_value, check_canonical, from_canonical_cbor}
use fractonica.Trust.Cbor.Heads.{at}
use fractonica.Trust.Cbor.Normal.{IsPlatform, IsNormal}
use fractonica.Trust.Cbor.Values.{value_read}

equal_same : (n m : ℕ) → n ≡ m → not (n == m) ≡ false
equal_same n m e = ground arith

-- A test that passes, a step and a check.
in_turn :
    {A B : Type 0} (t : Bool) (e : CanonicalCborError) (r : Outcome A) (check : A → Outcome B)
    (a : A) (b : B)
    → t ≡ false
    → r ≡ ok a
    → check a ≡ ok b
    → (refuse t e >> (r >>= check)) ≡ ok b
in_turn t e r check a b f g h = rw f (rw g h)

module _ (platform : Platform) where
  canonical :
      (value : CanonicalValue) (out rest : List ℕ)
      → to_canonical_cbor platform value ≡ ok out
      → rest ≡ []
      → check_canonical platform out (value, at out rest) ≡ ok value
  canonical value out rest h e =
      rw
        (equal_same (length out) (length (out ++ rest))
          (ap length (sym (ap (λ r. out ++ r) e ∙ append-nil out))))
        (rw h (rw (equal-eqb_bytes out out refl) refl))

  -- Every value in normal form (negative or unsigned integers in range, texts of UTF-8, maps in
  -- the order of their encoded keys) that to_canonical_cbor writes is read back by
  -- from_canonical_cbor. The bits of halves and singles are 16 and 32.
  pub from_canonical_cbor-to_canonical_cbor :
      (value : CanonicalValue) (out : List ℕ)
      → IsPlatform platform
      → IsNormal platform 0 value
      → to_canonical_cbor platform value ≡ ok out
      → from_canonical_cbor platform out ≡ ok value
  unfolding from_canonical_cbor
  from_canonical_cbor-to_canonical_cbor value out law n h =
      let (enc, e, s, read) = value_read platform law value 0 [] out n h in
      let decoded =
        subst
          (λ d. decode_value platform 33 (record { input = d; offset = 0 }) ≡ ok (value, at out []))
          (append-nil out)
          (subst (λ x. decode_value platform 33 (at [] (x ++ [])) ≡ ok (value, at x [])) (sym e)
            (read 33 refl [] [] (omega (arith, s, ap length e)))) in
      in_turn (ltb max_canonical_bytes (length out))
        (encoded_too_large (length out) max_canonical_bytes)
        (decode_value platform 33 (decoder out)) (check_canonical platform out) (value, at out [])
        value (fits (length out) s) decoded (canonical value out [] h refl)
    where
      fits : (n : ℕ) → n ≤ 2097152 → ltb 2097152 n ≡ false
      fits n h = ground arith
