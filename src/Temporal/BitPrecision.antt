-- ===== src/Temporal/BitPrecision.antt =====
-- `BitPrecision`: a validated width of 1 to 64 bits.
use fractonica.Common.{ℕ, ◌/◌, ◌%◌, ◌&&◌, leb, if◌then◌else◌}
use fractonica.Common.Result.{ok, err}
use fractonica.Temporal.{bits_per_octal_digit, phase_word_bits, invalid_bit_precision, Outcome}

pub record BitPrecision : Type 0 where
  pub get : ℕ

unfoldable pub new : ℕ → Outcome BitPrecision
new count =
    if leb 1 count && leb count phase_word_bits
    then ok (record { get = count })
    else err (invalid_bit_precision count)

abbrev pub full_octal_digits : BitPrecision → ℕ
full_octal_digits b = b.get / bits_per_octal_digit

abbrev pub trailing_bits : BitPrecision → ℕ
trailing_bits b = b.get % bits_per_octal_digit
