-- ===== src/Peer/Tests.antt =====
-- The theorems on the hexadecimal encoding at concrete inputs, and runs.
use fractonica.Common.{
  ℕ, zero, suc, ◌<◌, ◌≡◌, refl, List, [], ◌∷◌, get_or, length, replicate, arith,
}
use fractonica.Common.Result.{ok, err}
use fractonica.Common.Arrays.{IsArray}
use fractonica.Peer.{invalid_fixed_hex, invalid_signature_encoding}
use fractonica.Peer.Hex.{
  parse_fixed_hex, parse_signature_hex, bytes_hex, all_lower_hex, is_lower_hex,
}
use fractonica.Peer.Hex.RoundTrip.{
  Parses, parse_fixed_hex-bytes_hex, parse_signature_hex-bytes_hex, parse_fixed_hex-Parses,
  parse_signature_hex-Parses,
}

-- An array of the given size that ends in zeros.
abbrev array : ℕ → ℕ → List ℕ
array size n = n ∷ replicate size 0

array-IsArray : (size n : ℕ) → n < 256 → IsArray (suc size) (array size n)
array-IsArray size n h = record { size = sized size; each = each }
  where
    sized : (k : ℕ) → ◌≡◌ {A = ℕ} (suc (length (replicate {A = ℕ} k 0))) (suc k)
    sized zero = refl
    sized (suc k) = omega (arith, sized k)

    zeros : (k i : ℕ) → get_or (replicate k 0) i 0 < 256
    zeros zero i = omega arith
    zeros (suc k) zero = omega arith
    zeros (suc k) (suc i) = zeros k i

    each : (i : ℕ) → get_or (array size n) i 0 < 256
    each zero = h
    each (suc i) = zeros size i

parse_fixed_hex-bytes_hex_example : parse_fixed_hex (bytes_hex (array 15 171)) ≡ ok (array 15 171)
parse_fixed_hex-bytes_hex_example =
    parse_fixed_hex-bytes_hex (array 15 171) (array-IsArray 15 171 (omega arith))

parse_signature_hex-bytes_hex_example :
    parse_signature_hex (bytes_hex (array 63 171)) ≡ ok (array 63 171)
parse_signature_hex-bytes_hex_example =
    parse_signature_hex-bytes_hex (array 63 171) (array-IsArray 63 171 (omega arith))

-- 171 is "ab"
bytes_hex_run : bytes_hex (171 ∷ 5 ∷ []) ≡ 97 ∷ 98 ∷ 48 ∷ 53 ∷ []
unfolding bytes_hex
bytes_hex_run = refl

-- "AB" is refused, as an uppercase letter is no digit.
abbrev uppercase : List ℕ
uppercase = 65 ∷ 66 ∷ replicate 30 48

uppercase_refused : parse_fixed_hex uppercase ≡ err invalid_fixed_hex
unfolding parse_fixed_hex all_lower_hex is_lower_hex
uppercase_refused = refl

parse_fixed_hex-Parses_example : Parses parse_fixed_hex invalid_fixed_hex 16 uppercase
parse_fixed_hex-Parses_example = parse_fixed_hex-Parses uppercase

parse_signature_hex-Parses_example :
    Parses parse_signature_hex invalid_signature_encoding 64 uppercase
parse_signature_hex-Parses_example = parse_signature_hex-Parses uppercase
