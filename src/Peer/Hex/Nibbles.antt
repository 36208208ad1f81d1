-- ===== src/Peer/Hex/Nibbles.antt =====
-- One byte and its two hexadecimal digits.
use fractonica.Common.{ℕ, ◌+◌, ◌-◌, ◌*◌, ◌<◌, ◌≡◌, true, bit_or, arith, dec_lt}
use fractonica.Common.Result.{ok}
use fractonica.Common.Words.{shl_u}
use fractonica.Common.Bits.{bit_or_append_nibble}
use fractonica.Peer.Hex.{is_lower_hex, hex_nibble, hex_digit}

pub hex_nibble-hex_digit : (n : ℕ) → n < 16 → hex_nibble (hex_digit n) ≡ ok n
unfolding hex_nibble
hex_nibble-hex_digit n h = elim (dec_lt 9 n) [
  | yes g ↦ rw (letter n g) (as_letter n h g)
  | no g ↦ rw (decimal n g) (as_decimal n g)
]
  where
    letter : (n : ℕ) → 9 < n → hex_digit n ≡ 87 + n
    letter n g = ground arith

    decimal : (n : ℕ) → ¬ (9 < n) → hex_digit n ≡ 48 + n
    decimal n g = ground arith

    as_letter : (n : ℕ) → n < 16 → 9 < n → hex_nibble (87 + n) ≡ ok n
    as_letter n h g = ground arith

    as_decimal : (n : ℕ) → ¬ (9 < n) → hex_nibble (48 + n) ≡ ok n
    as_decimal n g = ground arith

pub hex_digit-is_lower_hex : (n : ℕ) → n < 16 → is_lower_hex (hex_digit n) ≡ true
unfolding is_lower_hex
hex_digit-is_lower_hex n h = ground arith

-- A lowercase digit is that of its value.
pub is_lower_hex-nibble :
    (x : ℕ) → is_lower_hex x ≡ true → (n : ℕ) × (n < 16) × (hex_nibble x ≡ ok n) × (hex_digit n ≡ x)
unfolding is_lower_hex hex_nibble
is_lower_hex-nibble x h = elim (dec_lt x 58) [
  | yes g ↦ (x - 48, below x h g, ok_decimal x h g, back_decimal x h g)
  | no g ↦ (x - 97 + 10, below_letter x h g, ok_letter x h g, back_letter x h g)
]
  where
    below : (x : ℕ) → is_lower_hex x ≡ true → x < 58 → x - 48 < 16
    below x h g = omega arith

    ok_decimal : (x : ℕ) → is_lower_hex x ≡ true → x < 58 → hex_nibble x ≡ ok (x - 48)
    ok_decimal x h g = ground arith

    back_decimal : (x : ℕ) → is_lower_hex x ≡ true → x < 58 → hex_digit (x - 48) ≡ x
    back_decimal x h g = ground arith

    below_letter : (x : ℕ) → is_lower_hex x ≡ true → ¬ (x < 58) → x - 97 + 10 < 16
    below_letter x h g = ground arith

    ok_letter : (x : ℕ) → is_lower_hex x ≡ true → ¬ (x < 58) → hex_nibble x ≡ ok (x - 97 + 10)
    ok_letter x h g = ground arith

    back_letter : (x : ℕ) → is_lower_hex x ≡ true → ¬ (x < 58) → hex_digit (x - 97 + 10) ≡ x
    back_letter x h g = ground arith

-- `(high << 4) | low`
pub joined : (high low : ℕ) → high < 16 → low < 16 → bit_or (shl_u 8 high 4) low ≡ high * 16 + low
joined high low h g = rw (shifted) (bit_or_append_nibble high low g)
  where
    shifted : shl_u 8 high 4 ≡ high * 16
    shifted = omega arith
