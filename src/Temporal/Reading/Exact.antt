-- ===== src/Temporal/Reading/Exact.antt =====
-- The readings are exact, and the pulse shows the first ten octal digits of the phase.
use fractonica.Common.{
  ℕ, zero, suc, ◌+◌, ◌*◌, ◌/◌, ◌%◌, ◌^◌, ◌≤◌, ◌<◌, ◌≡◌, refl, ap, ap₂, ◌∙◌, List, [], ◌∷◌,
  unwrap_or, arith, inl, inr,
}
use fractonica.Common.Pow.{floor_cross}
use fractonica.Common.Result.{ok, err, Result-cases}
use fractonica.Temporal.{realtime_pulse_bits, Outcome}
use fractonica.Temporal.BitPrecision.{BitPrecision, new}
use fractonica.Temporal.Phase.{PhaseRatio, IsPhase}
use fractonica.Temporal.Phase
use fractonica.Temporal.Phase.Digits.{octal_digit_msb-floor}
use fractonica.Temporal.Projection.{project, octal_digit_msb}
use fractonica.Temporal.Projection.Exact.{
  IsPrecision, Projects, Brackets, project_with_remainder-Projects, next_boundary-Brackets,
  bits-floor,
}
use fractonica.Temporal.Projection.Digits.{octal_digit_msb-project}
use fractonica.Temporal.Word.{from_ratio}
use fractonica.Temporal.Interval.{Interval, Timestamp, phase_at}
use fractonica.Temporal.Interval.Exact.{
  InRange, Answers, IsConsistent, elapsed, total, phase_at-Answers,
}
use fractonica.Temporal.Reading.{
  ClockReading, PulseReading10, read_phase, clock_reading, glyph, pulse_precision, pulse_from_phase,
  pulse_reading_10,
}

-- The precision that `pulse_from_phase` expects to be valid is valid.
pulse_precision_lem : new realtime_pulse_bits ≡ ok pulse_precision
unfolding new
pulse_precision_lem = refl

-- The first `count` digits of the unbounded expansion from `offset` on.
unfoldable pub expansion : PhaseRatio → ℕ → ℕ → List ℕ
expansion p offset zero = []
expansion p offset (suc count) = Phase.octal_digit_msb p offset ∷ expansion p (offset + 1) count

glyph-expansion :
    (p : PhaseRatio) (offset count : ℕ)
    → IsPhase p
    → offset + count ≤ 10
    → glyph (project p pulse_precision) offset count ≡ expansion p offset count
unfolding glyph expansion
glyph-expansion p offset zero v h = refl
glyph-expansion p offset (suc count) v h =
    ap₂ ◌∷◌ digit (glyph-expansion p (offset + 1) count v (omega arith))
  where
    digit :
        unwrap_or (octal_digit_msb (project p pulse_precision) offset) 0
        ≡ Phase.octal_digit_msb p offset
    digit = ground (arith, octal_digit_msb-project p pulse_precision offset v (omega arith))

-- The two glyphs of the pulse show the first ten octal digits of the phase.
pulse_from_phase-glyphs :
    (p : PhaseRatio)
    → IsPhase p
    → ((pulse_from_phase p).glyphs.most_significant ≡ expansion p 0 5)
      × ((pulse_from_phase p).glyphs.least_significant ≡ expansion p 5 5)
unfolding pulse_from_phase read_phase project
pulse_from_phase-glyphs p v =
    (glyph-expansion p 0 5 v (omega arith), glyph-expansion p 5 5 v (omega arith))

total_pos : (i : Interval) → IsConsistent i → 0 < total i
total_pos i c = omega arith

-- The phase that answers is positive in its denominator, so that its floors are those of the times.
floor_of_times :
    (i : Interval) (at : Timestamp) (p : PhaseRatio) (k : ℕ)
    → Answers i at (ok p)
    → p.numerator * k / p.denominator ≡ elapsed i at * k / total i
floor_of_times i at p k (c, h, valid, same) =
    floor_cross p.numerator p.denominator (elapsed i at) (total i) k
      (omega (arith, valid.below_one)) (total_pos i c) same

-- An exact reading: the prefix is the floor of 2 ^ b * elapsed / total, the progress is what is left of
-- that division, and the word has the same floor at 64 bits.
pub record Reads (i : Interval) (at : Timestamp) (b : BitPrecision) (r : ClockReading)
    : Type 0 where
  pub answers : Answers i at (ok r.phase)
  pub prefix_is : r.projection.prefix ≡ elapsed i at * 2 ^ b.get / total i
  pub word_is : r.word.raw ≡ elapsed i at * 2 ^ 64 / total i
  pub projects : Projects r.phase b (r.projection, r.progress_within_projection)
  pub brackets : Brackets r.phase b r.next_flip

read_phase-Reads :
    (i : Interval) (at : Timestamp) (b : BitPrecision) (p : PhaseRatio)
    → IsPrecision b
    → Answers i at (ok p)
    → Reads i at b (read_phase p b)
unfolding read_phase project from_ratio
read_phase-Reads i at b p w a =
    let e = project_with_remainder-Projects p b a.2 w in
    record {
      answers = a;
      prefix_is = e.prefix_is ∙ floor_of_times i at p (2 ^ b.get) a;
      word_is = bits-floor p a.2 64 (omega arith) ∙ floor_of_times i at p (2 ^ 64) a;
      projects = e;
      brackets = next_boundary-Brackets p b a.2 w;
    }

abbrev pub Reading : Interval → Timestamp → BitPrecision → Outcome ClockReading → Type 0
Reading i at b (ok r) = Reads i at b r
Reading i at b (err e) = Answers i at (err e)

-- For an instant whose fields are in range and a precision that BitPrecision::new accepts,
-- clock_reading returns the exact reading of an instant inside a consistent interval: the prefix
-- is the floor of 2 ^ bits times elapsed over total, the word the same at 64 bits, the progress is
-- the rest of that division and the next flip the end of the bucket; for any other interval or
-- instant, it returns the error that says what is wrong.
pub clock_reading-Reading :
    (i : Interval) (at : Timestamp) (b : BitPrecision)
    → InRange i at
    → IsPrecision b
    → Reading i at b (clock_reading i at b)
unfolding clock_reading
clock_reading-Reading i at b v w = elim (Result-cases (phase_at i at)) [
  | inl (p, e) ↦ rw e (read_phase-Reads i at b p w (rw e at (phase_at-Answers i at v)))
  | inr (x, e) ↦ rw e (rw e at (phase_at-Answers i at v))
]

-- The digits of `count` places from `offset` on, of the elapsed part of the interval.
unfoldable pub time_digits : ℕ → ℕ → ℕ → ℕ → List ℕ
time_digits part whole offset zero = []
time_digits part whole offset (suc count) =
    (part * 8 ^ suc offset / whole % 8) ∷ time_digits part whole (offset + 1) count

expansion-time_digits :
    (i : Interval) (at : Timestamp) (p : PhaseRatio) (offset count : ℕ)
    → Answers i at (ok p)
    → expansion p offset count ≡ time_digits (elapsed i at) (total i) offset count
unfolding expansion time_digits
expansion-time_digits i at p offset zero a = refl
expansion-time_digits i at p offset (suc count) a =
    ap₂ ◌∷◌
      (octal_digit_msb-floor p offset a.2
        ∙ ap (λ n. n % 8) (floor_of_times i at p (8 ^ suc offset) a))
      (expansion-time_digits i at p (offset + 1) count a)

abbrev pub Pulse : Interval → Timestamp → Outcome PulseReading10 → Type 0
Pulse i at (ok r) =
    Reads i at pulse_precision r.clock
    × (r.glyphs.most_significant ≡ time_digits (elapsed i at) (total i) 0 5)
    × (r.glyphs.least_significant ≡ time_digits (elapsed i at) (total i) 5 5)
Pulse i at (err e) = Answers i at (err e)

pulse_from_phase-Pulse :
    (i : Interval) (at : Timestamp) (p : PhaseRatio)
    → Answers i at (ok p)
    → Pulse i at (ok (pulse_from_phase p))
pulse_from_phase-Pulse i at p a =
    let (high, low) = pulse_from_phase-glyphs p a.2 in
    (
      unfold pulse_from_phase in
          read_phase-Reads i at pulse_precision p
            (record { at_least = omega arith; at_most = omega arith }) a,
      high ∙ expansion-time_digits i at p 0 5 a,
      low ∙ expansion-time_digits i at p 5 5 a,
    )

-- For an instant whose fields are in range, the realtime pulse shows the first ten octal digits of
-- the elapsed part of a consistent interval around it, with an exact 30-bit reading, and is the
-- error of phase_at otherwise.
pub pulse_reading_10-Pulse :
    (i : Interval) (at : Timestamp) → InRange i at → Pulse i at (pulse_reading_10 i at)
unfolding pulse_reading_10
pulse_reading_10-Pulse i at v = elim (Result-cases (phase_at i at)) [
  | inl (p, e) ↦ rw e (pulse_from_phase-Pulse i at p (rw e at (phase_at-Answers i at v)))
  | inr (x, e) ↦ rw e (rw e at (phase_at-Answers i at v))
]
