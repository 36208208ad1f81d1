-- ===== src/Peer/Hex/Decoding.antt =====
-- Decoding what was encoded, and encoding any string of lowercase digits.
use fractonica.Common.{
  append_assoc, ℕ, zero, suc, ◌+◌, ◌*◌, ◌/◌, ◌%◌, ◌<◌, ◌≡◌, refl, sym, ap, ap₂, ◌∙◌, ◌==◌, Bool,
  true, false, not, ◌&&◌, bit_or, List, [], ◌∷◌, ◌++◌, length, get_or, arith, length-append,
}
use fractonica.Common.Result.{ok}
use fractonica.Common.Words.{shl_u}
use fractonica.Common.Arrays.{IsArray}
use fractonica.Peer.Hex.{
  is_lower_hex, hex_nibble, hex_digit, decode_loop, decode_hex, all_lower_hex, bytes_hex,
}
use fractonica.Peer.Hex.Nibbles.{
  hex_nibble-hex_digit, hex_digit-is_lower_hex, is_lower_hex-nibble, joined,
}

pub get_or-append : (xs ys : List ℕ) (k : ℕ) → get_or (xs ++ ys) (length xs + k) 0 ≡ get_or ys k 0
get_or-append [] ys k = ap (λ n. get_or ys n 0) (zero_add k)
  where
    zero_add : (n : ℕ) → 0 + n ≡ n
    zero_add n = omega arith
get_or-append (x ∷ xs) ys k =
    ap (λ n. get_or (x ∷ (xs ++ ys)) n 0) (shift (length xs) k) ∙ get_or-append xs ys k
  where
    shift : (n k : ℕ) → suc n + k ≡ suc (n + k)
    shift n k = omega arith

-- The loop, past what it has read.
pub decode_loop-bytes_hex :
    (bytes : List ℕ) (index : ℕ) (before : List ℕ)
    → length before ≡ index * 2
    → ((i : ℕ) → get_or bytes i 0 < 256)
    → decode_loop (length bytes) index (before ++ bytes_hex bytes) ≡ ok bytes
unfolding decode_loop bytes_hex
decode_loop-bytes_hex [] index before s each = refl
decode_loop-bytes_hex (byte ∷ rest) index before s each =
    let tail = decode_loop-bytes_hex rest (index + 1) (before ++ pair) longer (λ i. each (suc i)) in
    rw (high, low, moved tail) (ap (λ b. ok (b ∷ rest)) byte_is)
  where
    small : byte < 256
    small = each 0

    input : List ℕ
    input = before ++ bytes_hex (byte ∷ rest)

    high : hex_nibble (get_or input (index * 2) 0) ≡ ok (byte / 16)
    high =
        ap hex_nibble (
          ap (λ n. get_or input n 0) (omega (arith, s))
          ∙ get_or-append before (bytes_hex (byte ∷ rest)) 0)
        ∙ hex_nibble-hex_digit (byte / 16) (omega (arith, small))

    low : hex_nibble (get_or input (index * 2 + 1) 0) ≡ ok (byte % 16)
    low =
        ap hex_nibble (
          ap (λ n. get_or input n 0) (omega (arith, s))
          ∙ get_or-append before (bytes_hex (byte ∷ rest)) 1)
        ∙ hex_nibble-hex_digit (byte % 16) (omega arith)

    pair : List ℕ
    pair = hex_digit (byte / 16) ∷ hex_digit (byte % 16) ∷ []

    longer : length (before ++ pair) ≡ (index + 1) * 2
    longer = omega (arith, length-append before pair, s)

    moved :
        decode_loop (length rest) (index + 1) ((before ++ pair) ++ bytes_hex rest) ≡ ok rest
        → decode_loop (length rest) (index + 1) input ≡ ok rest
    moved t =
        ap (decode_loop (length rest) (index + 1)) (sym (append_assoc before pair (bytes_hex rest)))
        ∙ t

    byte_is : bit_or (shl_u 8 (byte / 16) 4) (byte % 16) ≡ byte
    byte_is = joined (byte / 16) (byte % 16) (omega (arith, small)) (omega arith) ∙ omega arith

pub length-bytes_hex : (bytes : List ℕ) → length (bytes_hex bytes) ≡ length bytes * 2
unfolding bytes_hex
length-bytes_hex [] = refl
length-bytes_hex (b ∷ bytes) = omega (arith, length-bytes_hex bytes)

pub decode_hex-bytes_hex :
    (size : ℕ) (bytes : List ℕ) → IsArray size bytes → decode_hex (bytes_hex bytes) size ≡ ok bytes
unfolding decode_hex
decode_hex-bytes_hex size bytes v =
    rw (even (length (bytes_hex bytes)) size (omega (arith, length-bytes_hex bytes, v.size))) (
      ap (λ n. decode_loop n 0 (bytes_hex bytes)) (sym v.size)
      ∙ decode_loop-bytes_hex bytes 0 [] refl v.each)
  where
    even : (n m : ℕ) → n ≡ m * 2 → not (n == m * 2) ≡ false
    even n m e = ground arith

pub all_lower_hex-bytes_hex :
    (bytes : List ℕ) → ((i : ℕ) → get_or bytes i 0 < 256) → all_lower_hex (bytes_hex bytes) ≡ true
unfolding all_lower_hex bytes_hex
all_lower_hex-bytes_hex [] each = refl
all_lower_hex-bytes_hex (b ∷ bytes) each =
    rw
      (
        hex_digit-is_lower_hex (b / 16) (omega (arith, each 0)),
        hex_digit-is_lower_hex (b % 16) (omega arith),
      )
      (all_lower_hex-bytes_hex bytes (λ i. each (suc i)))

-- Every string of lowercase digits, of even length, encodes an array.
pub encoded :
    (size : ℕ) (value : List ℕ)
    → length value ≡ size * 2
    → all_lower_hex value ≡ true
    → (bytes : List ℕ) × IsArray size bytes × (bytes_hex bytes ≡ value)
unfolding all_lower_hex bytes_hex
encoded zero [] s h = ([], record { size = refl; each = λ i. omega arith }, refl)
encoded zero (x ∷ value) s h = absurd (omega arith)
encoded (suc size) [] s h = absurd (omega arith)
encoded (suc size) (x ∷ []) s h = absurd (omega arith)
encoded (suc size) (x ∷ y ∷ value) s h =
    let (p, q, r) = both (is_lower_hex x) (is_lower_hex y) (all_lower_hex value) h in
    let (bytes, v, e) = encoded size value (omega arith) r in
    let (n, below_n, _, x_is) = is_lower_hex-nibble x p in
    let (m, below_m, _, y_is) = is_lower_hex-nibble y q in
    (
      (n * 16 + m) ∷ bytes,
      longer n m bytes below_n below_m v,
      ap₂ (λ a rest. a ∷ rest) (ap hex_digit (upper n m below_m) ∙ x_is)
          (ap₂ (λ b rest. b ∷ rest) (ap hex_digit (lower n m below_m) ∙ y_is) e),
    )
  where
    both : (a b c : Bool) → (a && (b && c)) ≡ true → (a ≡ true) × (b ≡ true) × (c ≡ true)
    both true true c h = (refl, refl, h)
    both true false c h = absurd cc
    both false b c h = absurd cc

    upper : (n m : ℕ) → m < 16 → (n * 16 + m) / 16 ≡ n
    upper n m h = omega arith

    lower : (n m : ℕ) → m < 16 → (n * 16 + m) % 16 ≡ m
    lower n m h = omega arith

    longer :
        (n m : ℕ) (bytes : List ℕ)
        → n < 16
        → m < 16
        → IsArray size bytes
        → IsArray (suc size) ((n * 16 + m) ∷ bytes)
    longer n m bytes h g v = record { size = ap suc v.size; each = each }
      where
        each : (i : ℕ) → get_or ((n * 16 + m) ∷ bytes) i 0 < 256
        each zero = omega arith
        each (suc i) = v.each i
