-- ===== src/Peer/Hex/RoundTrip.antt =====
-- Encoding and strict decoding are inverse to one another.
use fractonica.Common.{
  ℕ, ◌*◌, ◌≡◌, ◌≢◌, refl, sym, ap, ◌∙◌, ◌⊎◌, inl, inr, ◌==◌, Bool, true, false, not, ◌||◌, List,
  length, arith, Bool-cases, ℕ_discrete,
}
use fractonica.Common.Result.{Result, ok, err}
use fractonica.Common.Arrays.{IsArray}
use fractonica.Peer.{PeerProofError, invalid_fixed_hex, invalid_signature_encoding}
use fractonica.Peer.Hex.{all_lower_hex, parse_fixed_hex, parse_signature_hex, bytes_hex}
use fractonica.Peer.Hex.Decoding.{
  length-bytes_hex, decode_hex-bytes_hex, all_lower_hex-bytes_hex, encoded,
}

-- The test that both parsers begin with.
refuses : (n size : ℕ) (b : Bool) → n ≡ size → b ≡ true → (not (n == size) || not b) ≡ false
refuses n size true e h = ground arith
refuses n size false e h = absurd cc

long : (n size : ℕ) (b : Bool) → n ≢ size → (not (n == size) || not b) ≡ true
long n size b e = ground arith

odd : (n size : ℕ) (b : Bool) → b ≡ false → (not (n == size) || not b) ≡ true
odd n size b e = ground arith

-- Parsing the encoding of an array of 16 bytes gives the array back.
pub parse_fixed_hex-bytes_hex :
    (bytes : List ℕ) → IsArray 16 bytes → parse_fixed_hex (bytes_hex bytes) ≡ ok bytes
unfolding parse_fixed_hex
parse_fixed_hex-bytes_hex bytes v =
    rw
      (refuses (length (bytes_hex bytes)) 32 (all_lower_hex (bytes_hex bytes))
        (omega (arith, length-bytes_hex bytes, v.size)) (all_lower_hex-bytes_hex bytes v.each))
      (decode_hex-bytes_hex 16 bytes v)

-- Parsing the encoding of an array of 64 bytes gives the array back.
pub parse_signature_hex-bytes_hex :
    (bytes : List ℕ) → IsArray 64 bytes → parse_signature_hex (bytes_hex bytes) ≡ ok bytes
unfolding parse_signature_hex
parse_signature_hex-bytes_hex bytes v =
    rw
      (refuses (length (bytes_hex bytes)) 128 (all_lower_hex (bytes_hex bytes))
        (omega (arith, length-bytes_hex bytes, v.size)) (all_lower_hex-bytes_hex bytes v.each))
      (decode_hex-bytes_hex 64 bytes v)

-- What a strict parser of `size` bytes returns.
abbrev pub Parses : (List ℕ → Result PeerProofError (List ℕ)) → PeerProofError → ℕ → List ℕ → Type 0
Parses parse error size value =
    ((bytes : List ℕ) × IsArray size bytes × (bytes_hex bytes ≡ value) × (parse value ≡ ok bytes))
    ⊎ (((length value ≢ size * 2) ⊎ (all_lower_hex value ≡ false)) × (parse value ≡ err error))

-- On every string, parse_fixed_hex returns an array of 16 bytes whose encoding is the string, or
-- refuses it because its length is not 32 or some byte is no lowercase hexadecimal digit.
pub parse_fixed_hex-Parses : (value : List ℕ) → Parses parse_fixed_hex invalid_fixed_hex 16 value
unfolding parse_fixed_hex
parse_fixed_hex-Parses value = elim (ℕ_discrete (length value) 32) [
  | no e ↦ inr (inl e, rw (long (length value) 32 (all_lower_hex value) e) refl)
  | yes e ↦ elim (Bool-cases (all_lower_hex value)) [
    | inr f ↦ inr (inr f, rw (odd (length value) 32 (all_lower_hex value) f) refl)
    | inl t ↦
        let (bytes, v, is) = encoded 16 value e t in
        inl (bytes, v, is, ap parse_fixed_hex (sym is) ∙ parse_fixed_hex-bytes_hex bytes v)
  ]
]

-- On every string, parse_signature_hex returns an array of 64 bytes whose encoding is the string,
-- or refuses it because its length is not 128 or some byte is no lowercase hexadecimal digit.
pub parse_signature_hex-Parses :
    (value : List ℕ) → Parses parse_signature_hex invalid_signature_encoding 64 value
unfolding parse_signature_hex
parse_signature_hex-Parses value = elim (ℕ_discrete (length value) 128) [
  | no e ↦ inr (inl e, rw (long (length value) 128 (all_lower_hex value) e) refl)
  | yes e ↦ elim (Bool-cases (all_lower_hex value)) [
    | inr f ↦ inr (inr f, rw (odd (length value) 128 (all_lower_hex value) f) refl)
    | inl t ↦
        let (bytes, v, is) = encoded 64 value e t in
        inl (bytes, v, is, ap parse_signature_hex (sym is) ∙ parse_signature_hex-bytes_hex bytes v)
  ]
]
