-- ===== src/Temporal/Address.antt =====
-- `OctalAddress`: a materialized prefix of 1 to 21 octal digits.
pub mod Places
pub mod RoundTrip
use fractonica.Common.{
  ℕ, suc, ◌+◌, ◌*◌, ◌/◌, ◌%◌, ◌^◌, ◌&&◌, ◌||◌, not, bit_and, bit_or, ltb, leb, ◌==◌, Option, none,
  some, List, [], ◌∷◌, length, if◌then◌else◌,
}
use fractonica.Common.Result.{ok, err, ◌>>=◌, ◌>>◌, ok_or, refuse}
use fractonica.Common.Words.{sub_u, mul_u, shl_u, shr}
use fractonica.Temporal.{
  bits_per_octal_digit, phase_word_octal_digits, invalid_address_length, invalid_address_digit,
  address_out_of_range, buffer_too_small, Outcome,
}
use fractonica.Temporal.Power.{octal_power_u64}
use fractonica.Temporal.BitPrecision.{full_octal_digits, trailing_bits}
use fractonica.Temporal.Ascii.{write_places}
use fractonica.Temporal.Projection.{PhaseProjection}

pub record OctalAddress : Type 0 where
  pub value : ℕ
  pub digits : ℕ

unfoldable pub new : ℕ → ℕ → Outcome OctalAddress
new value digits = do
  bin_count ← ok_or (octal_power_u64 digits) (invalid_address_length digits)
  refuse (leb bin_count value) address_out_of_range
  ok (record { value = value; digits = digits })

-- The loop over the bytes of `from_octal_ascii`.
unfoldable pub parse_loop : List ℕ → ℕ → Outcome ℕ
parse_loop [] value = ok value
parse_loop (ascii ∷ rest) value =
    let more = parse_loop rest (bit_or (shl_u 64 value bits_per_octal_digit) (sub_u 8 ascii 48)) in
    if not (leb 48 ascii && leb ascii 55) then err (invalid_address_digit ascii) else more

unfoldable pub from_octal_ascii : List ℕ → Outcome OctalAddress
from_octal_ascii digits = do
  refuse ((length digits == 0) || ltb phase_word_octal_digits (length digits))
      (invalid_address_length (length digits))
  value ← parse_loop digits 0
  new value (length digits % 2 ^ 8)

unfoldable pub from_projection : PhaseProjection → Outcome OctalAddress
from_projection projection =
    let digits = full_octal_digits projection.precision in
    if digits == 0
    then err (invalid_address_length 0)
    else new (shr projection.prefix (trailing_bits projection.precision)) (digits % 2 ^ 8)

unfoldable pub digit_msb : OctalAddress → ℕ → Option ℕ
digit_msb address index =
    if leb address.digits index
    then none
    else some (
        bit_and
          (shr address.value
            (mul_u 8 (sub_u 8 (sub_u 8 address.digits index) 1) bits_per_octal_digit))
          7)

unfoldable pub write_ascii : OctalAddress → List ℕ → Outcome (List ℕ)
write_ascii address output =
    if ltb (length output) address.digits
    then err buffer_too_small
    else ok (write_places (λ index. digit_msb address (index % 2 ^ 8)) 0 address.digits output)
