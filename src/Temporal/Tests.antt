-- ===== src/Temporal/Tests.antt =====
-- The temporal theorems at concrete inputs, and runs of the operations.
use fractonica.Common.{
  ℕ, ◌*◌, ◌/◌, ◌%◌, ◌^◌, ◌<◌, ◌≡◌, ◌↔◌, ◌⊎◌, refl, none, some, List, [], ◌∷◌, arith,
}
use fractonica.Common.Gcd.{greatest_common_divisor}
use fractonica.Common.Int.{ℤ, pos, negsuc}
use fractonica.Common.Result.{ok, err, ◌>>=◌}
use fractonica.Temporal.{
  invalid_duration, outside_series_coverage, mixed_saros_series, average_saros_cycle_nanoseconds,
}
use fractonica.Temporal.BitPrecision.{BitPrecision}
use fractonica.Temporal.Phase.{
  PhaseRatio, IsPhase, from_valid_parts, next_bit, take_bits, next_digit, skip_digits, bits,
}
use fractonica.Temporal.Phase
use fractonica.Temporal.Phase.Lowest.{from_valid_parts-eq_iff}
use fractonica.Temporal.Phase.Digits.{octal_digit_msb-floor}
use fractonica.Temporal.Projection.{project, project_with_remainder, next_boundary, octal_digit_msb}
use fractonica.Temporal.Projection.Exact.{
  IsPrecision, Projects, Brackets, project_with_remainder-Projects, next_boundary-Brackets,
}
use fractonica.Temporal.Projection.Digits.{octal_digit_msb-project}
use fractonica.Temporal.Word.{from_ratio}
use fractonica.Temporal.Word
use fractonica.Temporal.Word.Agrees.{project-from_ratio, octal_digit_msb-from_ratio}
use fractonica.Temporal.Address.{parse_loop, OctalAddress, from_octal_ascii, write_ascii}
use fractonica.Temporal.Address.Places.{first_invalid}
use fractonica.Temporal.Address.RoundTrip.{
  IsAddress, Read, from_octal_ascii_lem, from_octal_ascii-write_ascii, write_ascii-from_octal_ascii,
}
use fractonica.Temporal.Interval.{EclipsePoint, Interval, Timestamp, phase_at}
use fractonica.Temporal.Interval.Exact.{InRange, elapsed, total}
use fractonica.Temporal.Reading.{clock_reading, pulse_reading_10}
use fractonica.Temporal.Reading.Exact.{
  Reading, Pulse, clock_reading-Reading, pulse_reading_10-Pulse,
}
use fractonica.Temporal.Series.{search_loop, check_windows, series_bracket}
use fractonica.Temporal.Series.Search.{Returns, series_bracket-Returns}
use fractonica.Temporal.Series.Phases.{phase_at-series_bracket}
use fractonica.Temporal.Rarity.{
  duplex, nihil, classify_rarity, classify_rarity_digits, check_digits, all_zero,
}
use fractonica.Temporal.Rarity.Repdigit.{preceding, Classifies, classify_rarity-Classifies}
use fractonica.Temporal.Rarity.Slices.{digit_list}
use fractonica.Temporal.Rarity.Digits.{classify_rarity_digits-digit_list}
use fractonica.Temporal.Power.{
  octal_power_u64, octal_power_u128, octal_power_u64_lem, octal_power_u128_lem,
}
use fractonica.Temporal.Period.{
  RationalDuration, kilo, exponent, floor_nanoseconds, average_duration, new,
}
use fractonica.Temporal.Period.Exact.{floor_nanoseconds-average_duration, new-floor_nanoseconds}

-- One third of an interval.
abbrev third : PhaseRatio
third = record { numerator = 1; denominator = 3 }

third-IsPhase : IsPhase third
third-IsPhase = omega arith

abbrev ten_bits : BitPrecision
ten_bits = record { get = 10 }

ten_bits-IsPrecision : IsPrecision ten_bits
ten_bits-IsPrecision = omega arith

abbrev point : ℕ → ℤ → EclipsePoint
point index epoch_seconds = record {
  index = index;
  epoch_seconds = epoch_seconds;
  saros = 141;
  sequence = index;
  type_code = 0;
}

abbrev points : List EclipsePoint
points = point 0 (negsuc 99) ∷ point 1 (pos 100) ∷ point 2 (pos 1000) ∷ []

abbrev interval : Interval
interval = record { saros = 141; previous = point 1 (pos 100); next = point 2 (pos 1000) }

abbrev instant : Timestamp
instant = record { epoch_seconds = pos 400; nanosecond = 0 }

instant-InRange : InRange interval instant
instant-InRange = omega arith

abbrev address : OctalAddress
address = record { value = 0o1237; digits = 4 }

address-IsAddress : IsAddress address
address-IsAddress = omega arith

clock_reading-Reading_example :
    Reading interval instant ten_bits (clock_reading interval instant ten_bits)
clock_reading-Reading_example =
    clock_reading-Reading interval instant ten_bits instant-InRange ten_bits-IsPrecision

series_bracket-Returns_example : Returns points (pos 400) (series_bracket points (pos 400))
series_bracket-Returns_example = series_bracket-Returns points (pos 400)

pulse_reading_10-Pulse_example : Pulse interval instant (pulse_reading_10 interval instant)
pulse_reading_10-Pulse_example = pulse_reading_10-Pulse interval instant instant-InRange

project_with_remainder-Projects_example :
    Projects third ten_bits (project_with_remainder third ten_bits)
project_with_remainder-Projects_example =
    project_with_remainder-Projects third ten_bits third-IsPhase ten_bits-IsPrecision

project-from_ratio_example : Word.project (from_ratio third) ten_bits ≡ project third ten_bits
project-from_ratio_example = project-from_ratio third ten_bits third-IsPhase ten_bits-IsPrecision

classify_rarity_digits-digit_list_example :
    classify_rarity_digits (1 ∷ 2 ∷ 3 ∷ 7 ∷ []) ≡ ok (classify_rarity address)
unfolding digit_list
classify_rarity_digits-digit_list_example =
    classify_rarity_digits-digit_list address address-IsAddress

classify_rarity-Classifies_example :
    Classifies
      (preceding address)
      4
      (classify_rarity address).family
      (classify_rarity address).digit
classify_rarity-Classifies_example = classify_rarity-Classifies address address-IsAddress

phase_at-series_bracket_example :
    (p : PhaseRatio) × (phase_at interval instant ≡ ok p)
    × IsPhase p
    × (p.numerator * total interval ≡ elapsed interval instant * p.denominator)
unfolding series_bracket check_windows search_loop
phase_at-series_bracket_example =
    phase_at-series_bracket points instant interval refl instant-InRange

from_valid_parts-eq_iff_example : (from_valid_parts 2 6 ≡ from_valid_parts 5 15) ↔ (2 * 15 ≡ 5 * 6)
from_valid_parts-eq_iff_example = from_valid_parts-eq_iff 2 6 5 15 (omega arith) (omega arith)

write_ascii-from_octal_ascii_example :
    IsAddress address
    × (◌≡◌ {A = ℕ} 4 4)
    × (write_ascii address (0 ∷ 0 ∷ 0 ∷ 0 ∷ []) ≡ ok (49 ∷ 50 ∷ 51 ∷ 55 ∷ []))
unfolding from_octal_ascii parse_loop fractonica.Temporal.Address.new octal_power_u64
write_ascii-from_octal_ascii_example =
    write_ascii-from_octal_ascii (49 ∷ 50 ∷ 51 ∷ 55 ∷ []) (0 ∷ 0 ∷ 0 ∷ 0 ∷ []) address refl refl

from_octal_ascii-write_ascii_example :
    (write_ascii address (0 ∷ 0 ∷ 0 ∷ 0 ∷ []) >>= from_octal_ascii) ≡ ok address
from_octal_ascii-write_ascii_example =
    from_octal_ascii-write_ascii address (0 ∷ 0 ∷ 0 ∷ 0 ∷ []) address-IsAddress refl

octal_digit_msb-floor_example : Phase.octal_digit_msb third 30 ≡ 1 * 8 ^ 31 / 3 % 8
octal_digit_msb-floor_example = octal_digit_msb-floor third 30 third-IsPhase

octal_digit_msb-project_example :
    octal_digit_msb (project third ten_bits) 2 ≡ some (Phase.octal_digit_msb third 2)
octal_digit_msb-project_example =
    octal_digit_msb-project third ten_bits 2 third-IsPhase ten_bits-IsPrecision

octal_digit_msb-from_ratio_example : Word.octal_digit_msb (from_ratio third) 21 ≡ none
octal_digit_msb-from_ratio_example = octal_digit_msb-from_ratio third 21 third-IsPhase

next_boundary-Brackets_example : Brackets third ten_bits (next_boundary (project third ten_bits))
next_boundary-Brackets_example =
    next_boundary-Brackets third ten_bits third-IsPhase ten_bits-IsPrecision

from_octal_ascii_lem_example : from_octal_ascii (49 ∷ 57 ∷ []) ≡ Read (49 ∷ 57 ∷ []) (some 57)
unfolding first_invalid
from_octal_ascii_lem_example = from_octal_ascii_lem (49 ∷ 57 ∷ [])

octal_power_u128_lem_example : octal_power_u128 43 ≡ none
octal_power_u128_lem_example = octal_power_u128_lem 43

octal_power_u64_lem_example : octal_power_u64 21 ≡ some (2 ^ 63)
octal_power_u64_lem_example = octal_power_u64_lem 21

floor_nanoseconds-average_duration_example :
    floor_nanoseconds (average_duration kilo) ≡ average_saros_cycle_nanoseconds / 262144
unfolding exponent
floor_nanoseconds-average_duration_example = floor_nanoseconds-average_duration kilo

new-floor_nanoseconds_example :
    ((◌≡◌ {A = ℕ} 4 0) × (new 10 4 ≡ err invalid_duration))
    ⊎ ((0 < 4)
        × (duration : RationalDuration) × (new 10 4 ≡ ok duration)
        × (floor_nanoseconds duration ≡ 10 / 4))
new-floor_nanoseconds_example = new-floor_nanoseconds 10 4

-- Runs that follow the source.
duplex_seven :
    classify_rarity (record { value = 0o1300; digits = 4 }) ≡ record { family = duplex; digit = 7 }
unfolding classify_rarity
duplex_seven = refl

omega_boundary : classify_rarity_digits (0 ∷ 0 ∷ 0 ∷ []) ≡ ok (record { family = nihil; digit = 7 })
unfolding classify_rarity_digits check_digits all_zero
omega_boundary = refl

third_reduced : from_valid_parts 300 900 ≡ third
unfolding from_valid_parts greatest_common_divisor
third_reduced = refl

before_series : series_bracket points (negsuc 100) ≡ some (err outside_series_coverage)
unfolding series_bracket check_windows
before_series = refl
