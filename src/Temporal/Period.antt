-- ===== src/Temporal/Period.antt =====
-- `TemporalPeriod` and `RationalDuration`.
pub mod Exact
use fractonica.Common.{ℕ, ◌/◌, ◌==◌, if◌then◌else◌, unwrap_or}
use fractonica.Common.Result.{ok, err}
use fractonica.Common.Gcd.{greatest_common_divisor}
use fractonica.Temporal.{average_saros_cycle_nanoseconds, invalid_duration, Outcome}
use fractonica.Temporal.Power.{octal_power_u128}

pub data TemporalPeriod : Type 0 where
  tera giga mega kilo saros mili nano : TemporalPeriod

unfoldable pub exponent : TemporalPeriod → ℕ
exponent tera = 3
exponent giga = 4
exponent mega = 5
exponent kilo = 6
exponent saros = 7
exponent mili = 8
exponent nano = 9

pub record RationalDuration : Type 0 where
  pub numerator_nanoseconds : ℕ
  pub denominator : ℕ

unfoldable pub from_nonzero_parts : ℕ → ℕ → RationalDuration
from_nonzero_parts numerator_nanoseconds denominator =
    let divisor = greatest_common_divisor numerator_nanoseconds denominator in
    record {
      numerator_nanoseconds = numerator_nanoseconds / divisor;
      denominator = denominator / divisor;
    }

unfoldable pub new : ℕ → ℕ → Outcome RationalDuration
new numerator_nanoseconds denominator =
    if denominator == 0
    then err invalid_duration
    else ok (from_nonzero_parts numerator_nanoseconds denominator)

unfoldable pub floor_nanoseconds : RationalDuration → ℕ
floor_nanoseconds d = d.numerator_nanoseconds / d.denominator

unfoldable pub average_duration : TemporalPeriod → RationalDuration
unfolding exponent
average_duration period =
    from_nonzero_parts average_saros_cycle_nanoseconds
      (unwrap_or (octal_power_u128 (exponent period)) 1)
