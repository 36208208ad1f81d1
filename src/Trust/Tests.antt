-- ===== src/Trust/Tests.antt =====
-- A map, written and read back, where halves and singles hold the small whole numbers of their bits.
use fractonica.Common.{
  ℕ, dec_lt, ◌%◌, ◌^◌, ◌≡◌, refl, ltb, Bool, true, ◌&&◌, List, [], ◌∷◌, inl, arith, subst,
}
use fractonica.Common.Int.{negsuc}
use fractonica.Common.Result.{ok, ok-injective}
use fractonica.Replication.Bytes.{Before}
use fractonica.Trust.Value.{
  CanonicalValue, boolean, integer, unsigned, float, text, array, map, nil, cons, end, entry,
}
use fractonica.Trust.Cbor.{Platform}
use fractonica.Trust.Cbor.Encode.{to_canonical_cbor, encode_value}
use fractonica.Trust.Cbor.Decode.{from_canonical_cbor}
use fractonica.Trust.Cbor.Normal.{IsPlatform, IsNormal}
use fractonica.Trust.Cbor.RoundTrip.{from_canonical_cbor-to_canonical_cbor}
use fractonica.Trust.Cbor.Unique.{from_canonical_cbor-injective}

abbrev all_ascii : List ℕ → Bool
all_ascii [] = true
all_ascii (b ∷ bs) = ltb b 128 && all_ascii bs

abbrev platform : Platform
platform = record {
  half_from_f64 = λ bits. bits % 2 ^ 16;
  half_to_f64 = λ bits. bits;
  single_from_f64 = λ bits. bits % 2 ^ 32;
  single_to_f64 = λ bits. bits;
  is_utf8 = all_ascii;
}

platform-IsPlatform : IsPlatform platform
platform-IsPlatform = record { half_bits = λ bits. omega arith; single_bits = λ bits. omega arith }

-- {1: "a", 2: [-3, 70000 as a float, true]}
abbrev value : CanonicalValue
value = map (
    entry (unsigned 1) (text (97 ∷ [])) (
      entry (unsigned 2)
        (array (cons (integer (negsuc 2)) (cons (float 70000) (cons (boolean true) nil)))) end))

abbrev encoded : List ℕ
encoded = 162 ∷ 1 ∷ 97 ∷ 97 ∷ 2 ∷ 131 ∷ 34 ∷ 250 ∷ 0 ∷ 1 ∷ 17 ∷ 112 ∷ 245 ∷ []

written : to_canonical_cbor platform value ≡ ok encoded
unfolding to_canonical_cbor dec_lt
written = refl

key_order :
    (a b : List ℕ)
    → encode_value platform (unsigned 1) 1 [] ≡ ok a
    → encode_value platform (unsigned 2) 1 [] ≡ ok b
    → Before a b
unfolding encode_value
key_order a b e f =
    subst (λ x. Before x b) (ok-injective e)
      (subst (Before (1 ∷ [])) (ok-injective f) (inl (omega arith)))

value-IsNormal : IsNormal platform 0 value
value-IsNormal =
    (omega arith, refl, key_order, (omega arith, (omega arith, (omega arith, (tt, tt))), tt, tt))

from_canonical_cbor-to_canonical_cbor_example : from_canonical_cbor platform encoded ≡ ok value
from_canonical_cbor-to_canonical_cbor_example =
    from_canonical_cbor-to_canonical_cbor platform value encoded platform-IsPlatform value-IsNormal
      written

read : from_canonical_cbor platform encoded ≡ ok value
unfolding from_canonical_cbor dec_lt
read = refl

from_canonical_cbor-injective_example : encoded ≡ encoded
from_canonical_cbor-injective_example =
    from_canonical_cbor-injective platform encoded encoded value read read
