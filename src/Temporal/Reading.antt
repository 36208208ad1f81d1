-- ===== src/Temporal/Reading.antt =====
-- `ClockReading`, `PulseAddress10` and `PulseReading10`: the readings that join an interval, a phase
-- and its projections.
pub mod Exact
use fractonica.Common.{ℕ, zero, suc, ◌+◌, List, [], ◌∷◌, unwrap_or}
use fractonica.Common.Result.{ok, ◌>>=◌}
use fractonica.Temporal.{realtime_pulse_bits, glyph_digits, Outcome}
use fractonica.Temporal.BitPrecision.{BitPrecision}
use fractonica.Temporal.Phase.{PhaseRatio}
use fractonica.Temporal.Word.{PhaseWord64, from_ratio}
use fractonica.Temporal.Projection.{
  PhaseProjection, PhaseBoundary, project_with_remainder, octal_digit_msb, next_boundary,
}
use fractonica.Temporal.Interval.{Interval, Timestamp, phase_at}

pub record ClockReading : Type 0 where
  pub phase : PhaseRatio
  pub word : PhaseWord64
  pub projection : PhaseProjection
  pub progress_within_projection : PhaseRatio
  pub next_flip : PhaseBoundary

-- The body that `clock_reading` and `pulse_from_phase` share.
unfoldable pub read_phase : PhaseRatio → BitPrecision → ClockReading
read_phase phase b =
    let (projection, progress) = project_with_remainder phase b in
    record {
      phase = phase;
      word = from_ratio phase;
      projection = projection;
      progress_within_projection = progress;
      next_flip = next_boundary projection;
    }

unfoldable pub clock_reading : Interval → Timestamp → BitPrecision → Outcome ClockReading
unfolding read_phase
clock_reading interval at b = do phase ← phase_at interval at; ok (read_phase phase b)

-- The arrays of five digits are lists.
pub record PulseAddress10 : Type 0 where
  pub most_significant : List ℕ
  pub least_significant : List ℕ

pub record PulseReading10 : Type 0 where
  pub clock : ClockReading
  pub glyphs : PulseAddress10

-- `for index in 0..GLYPH_DIGITS`, of which `count` rounds are left, for one of the arrays.
unfoldable pub glyph : PhaseProjection → ℕ → ℕ → List ℕ
glyph projection offset zero = []
glyph projection offset (suc count) =
    unwrap_or (octal_digit_msb projection offset) 0 ∷ glyph projection (offset + 1) count

-- `BitPrecision::new(REALTIME_PULSE_BITS)`, which is known to succeed.
abbrev pub pulse_precision : BitPrecision
pulse_precision = record { get = realtime_pulse_bits }

unfoldable pub pulse_from_phase : PhaseRatio → PulseReading10
unfolding glyph
pulse_from_phase phase =
    let clock = read_phase phase pulse_precision in
    record {
      clock = clock;
      glyphs = record {
        most_significant = glyph clock.projection 0 glyph_digits;
        least_significant = glyph clock.projection glyph_digits glyph_digits;
      };
    }

unfoldable pub pulse_reading_10 : Interval → Timestamp → Outcome PulseReading10
unfolding pulse_from_phase
pulse_reading_10 interval at = do phase ← phase_at interval at; ok (pulse_from_phase phase)
