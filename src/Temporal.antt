-- ===== src/Temporal.antt =====
-- crates/fractonica-temporal-core/src/lib.rs: the constants and the errors of the crate. The
-- children hold the rest, in the order of the file.
pub mod Phase
pub mod Power
pub mod BitPrecision
pub mod Ascii
pub mod Projection
pub mod Word
pub mod Address
pub mod Interval
pub mod Reading
pub mod Series
pub mod Rarity
pub mod Period
mod Tests
use fractonica.Common.{ℕ, ◌*◌}
use fractonica.Common.Result.{Result}

abbrev pub radix : ℕ
radix = 8

abbrev pub bits_per_octal_digit : ℕ
bits_per_octal_digit = 3

abbrev pub phase_word_bits : ℕ
phase_word_bits = 64

abbrev pub phase_word_octal_digits : ℕ
phase_word_octal_digits = 21

abbrev pub realtime_pulse_bits : ℕ
realtime_pulse_bits = 30

abbrev pub glyph_digits : ℕ
glyph_digits = 5

abbrev pub average_saros_cycle_centiseconds : ℕ
average_saros_cycle_centiseconds = 56897174304

abbrev pub average_saros_cycle_nanoseconds : ℕ
average_saros_cycle_nanoseconds = average_saros_cycle_centiseconds * 10000000

abbrev pub nanoseconds_per_second : ℕ
nanoseconds_per_second = 1000000000

pub data TemporalError : Type 0 where
  invalid_bit_precision : ℕ → TemporalError
  invalid_phase_ratio : TemporalError
  invalid_duration : TemporalError
  invalid_interval : TemporalError
  invalid_nanosecond : ℕ → TemporalError
  instant_outside_interval : TemporalError
  invalid_address_length : ℕ → TemporalError
  invalid_address_digit : ℕ → TemporalError
  address_out_of_range : TemporalError
  buffer_too_small : TemporalError
  too_few_eclipses : TemporalError
  unsorted_eclipses : TemporalError
  mixed_saros_series : TemporalError
  outside_series_coverage : TemporalError

abbrev pub Outcome {ℓ} : Type ℓ → Type ℓ
Outcome A = Result TemporalError A
