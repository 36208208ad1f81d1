-- ===== src/Temporal/Period/Exact.antt =====
-- Durations are exact: reducing them changes no floor, and each period is an eighth of the one above.
use native.Mathlib.Nat.{mul-div-mul_right}
use fractonica.Common.{ℕ, ◌/◌, ◌^◌, ◌<◌, ◌≡◌, ◌⊎◌, inl, inr, sym, ap₂, ◌∙◌, some, arith, ℕ_discrete}
use fractonica.Common.Gcd.{greatest_common_divisor, num_split, den_split, gcd_pos}
use fractonica.Common.Pow.{eight_pow_pos}
use fractonica.Common.Result.{ok, err}
use fractonica.Temporal.{average_saros_cycle_nanoseconds, invalid_duration}
use fractonica.Temporal.Power.{octal_power_u128, octal_power_u128_lem}
use fractonica.Temporal.Period.{
  TemporalPeriod, tera, giga, mega, kilo, saros, mili, nano, exponent, RationalDuration,
  from_nonzero_parts, new, floor_nanoseconds, average_duration,
}

floor-from_nonzero_parts : (n d : ℕ) → 0 < d → floor_nanoseconds (from_nonzero_parts n d) ≡ n / d
unfolding floor_nanoseconds from_nonzero_parts
floor-from_nonzero_parts n d h =
    sym (mul-div-mul_right (n / g) (d / g) (gcd_pos n d h))
    ∙ ap₂ ◌/◌ (num_split n d) (den_split n d)
  where
    g : ℕ
    g = greatest_common_divisor n d

-- RationalDuration::new refuses exactly a zero denominator, and the duration that it returns has
-- the whole nanoseconds of the unreduced fraction.
pub new-floor_nanoseconds :
    (n d : ℕ)
    → ((d ≡ 0) × (new n d ≡ err invalid_duration))
      ⊎ ((0 < d)
          × (duration : RationalDuration) × (new n d ≡ ok duration)
          × (floor_nanoseconds duration ≡ n / d))
unfolding new
new-floor_nanoseconds n d = elim (ℕ_discrete d 0) [
  | yes z ↦ inl (z, ground arith)
  | no nz ↦
      let h : 0 < d = omega arith in
      inr (h, from_nonzero_parts n d, ground arith, floor-from_nonzero_parts n d h)
]

power_of_exponent : (p : TemporalPeriod) → octal_power_u128 (exponent p) ≡ some (8 ^ exponent p)
unfolding exponent
power_of_exponent tera = octal_power_u128_lem 3
power_of_exponent giga = octal_power_u128_lem 4
power_of_exponent mega = octal_power_u128_lem 5
power_of_exponent kilo = octal_power_u128_lem 6
power_of_exponent saros = octal_power_u128_lem 7
power_of_exponent mili = octal_power_u128_lem 8
power_of_exponent nano = octal_power_u128_lem 9

-- The average duration of a period has the whole nanoseconds of the average cycle divided by 8 ^
-- exponent.
pub floor_nanoseconds-average_duration :
    (p : TemporalPeriod)
    → floor_nanoseconds (average_duration p) ≡ average_saros_cycle_nanoseconds / 8 ^ exponent p
unfolding average_duration
floor_nanoseconds-average_duration p = rw (power_of_exponent p) (
    floor-from_nonzero_parts average_saros_cycle_nanoseconds (8 ^ exponent p)
      (eight_pow_pos (exponent p)))
