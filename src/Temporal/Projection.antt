-- ===== src/Temporal/Projection.antt =====
-- `PhaseProjection` and `PhaseBoundary`, with the methods of `PhaseRatio` that project.
pub mod Exact
pub mod Digits
use fractonica.Common.{
  ℕ, zero, suc, ◌+◌, ◌*◌, ◌/◌, ◌%◌, ◌^◌, Bool, ◌&&◌, bit_and, ltb, leb, ◌==◌, Option, none, some,
  List, [], ◌∷◌, length, if◌then◌else◌, unwrap_or,
}
use fractonica.Common.Result.{ok, err}
use fractonica.Common.Words.{add_u, sub_u, shl_u, shr}
use fractonica.Temporal.{bits_per_octal_digit, buffer_too_small, Outcome}
use fractonica.Temporal.BitPrecision.{BitPrecision, full_octal_digits}
use fractonica.Temporal.Ascii.{write_places}
use fractonica.Temporal.Phase.{PhaseRatio, PhaseBitIter, bits, take_bits, from_valid_parts}

pub record PhaseProjection : Type 0 where
  pub precision : BitPrecision
  pub prefix : ℕ

pub record PhaseBoundary : Type 0 where
  pub numerator : ℕ
  pub denominator : ℕ

unfoldable pub project_with_remainder : PhaseRatio → BitPrecision → PhaseProjection × PhaseRatio
project_with_remainder phase b =
    let (prefix, it) = take_bits b.get 0 (bits phase) in
    (record { precision = b; prefix = prefix }, from_valid_parts it.remainder it.denominator)

unfoldable pub project : PhaseRatio → BitPrecision → PhaseProjection
project phase b = (project_with_remainder phase b).0

-- The methods of `PhaseProjection`. Shifts and counts are `u8`, and indices `usize`.
unfoldable pub denominator : PhaseProjection → ℕ
denominator projection = shl_u 128 1 projection.precision.get

unfoldable pub bit_msb : PhaseProjection → ℕ → Option ℕ
bit_msb projection index =
    let places = projection.precision.get in
    if leb places index
    then none
    else some (bit_and (shr projection.prefix (sub_u 8 (sub_u 8 places index) 1)) 1)

unfoldable pub octal_digit_msb : PhaseProjection → ℕ → Option ℕ
octal_digit_msb projection index =
    let consumed_bits = (index + 1) * bits_per_octal_digit % 2 ^ 8 in
    if leb (full_octal_digits projection.precision) index
    then none
    else some (bit_and (shr projection.prefix (sub_u 8 projection.precision.get consumed_bits)) 7)

unfoldable pub write_octal_ascii : PhaseProjection → List ℕ → Outcome (List ℕ)
write_octal_ascii projection output =
    let count = full_octal_digits projection.precision in
    if ltb (length output) count
    then err buffer_too_small
    else ok (write_places (octal_digit_msb projection) 0 count output)

unfoldable pub next_boundary : PhaseProjection → PhaseBoundary
unfolding denominator
next_boundary projection = record {
  numerator = add_u 128 projection.prefix 1;
  denominator = denominator projection;
}

unfoldable pub is_interval_end : PhaseBoundary → Bool
is_interval_end boundary = boundary.numerator == boundary.denominator
