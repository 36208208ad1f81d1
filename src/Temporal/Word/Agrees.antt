-- ===== src/Temporal/Word/Agrees.antt =====
-- The cached 64-bit word gives the projections and digits that the exact phase gives.
use fractonica.Common.{
  ℕ, ◌+◌, ◌-◌, ◌*◌, ◌/◌, ◌^◌, ◌≤◌, ◌≡◌, sym, ap, ◌∙◌, none, some, leb, if◌then◌else◌, arith,
}
use fractonica.Common.Words.{sub_u, shr}
use fractonica.Common.Pow.{floor-shr}
use fractonica.Temporal.BitPrecision.{BitPrecision}
use fractonica.Temporal.Phase.{PhaseRatio, IsPhase, bits, take_bits}
use fractonica.Temporal.Phase
use fractonica.Temporal.Projection.{PhaseProjection, project_with_remainder}
use fractonica.Temporal.Projection
use fractonica.Temporal.Projection.Exact.{IsPrecision, bits-floor}
use fractonica.Temporal.Projection.Digits.{shifted_digit}
use fractonica.Temporal.Word.{from_ratio, project, octal_digit_msb}

word_shift : (a d n : ℕ) → n ≤ 64 → shr (a * 2 ^ 64 / d) (sub_u 8 64 n) ≡ a * 2 ^ n / d
word_shift a d n h =
    ap (λ s. a * 2 ^ 64 / d / 2 ^ s) shift_is
    ∙ ap (λ k. a * 2 ^ k / d / 2 ^ (64 - n)) split
    ∙ floor-shr a d n (64 - n)
  where
    shift_is : sub_u 8 64 n ≡ 64 - n
    shift_is = omega arith

    split : 64 ≡ n + (64 - n)
    split = omega arith

-- For a valid phase and precision, projecting the cached 64-bit word is projecting the phase.
pub project-from_ratio :
    (p : PhaseRatio) (b : BitPrecision)
    → IsPhase p
    → IsPrecision b
    → project (from_ratio p) b ≡ Projection.project p b
unfolding project from_ratio Projection.project project_with_remainder
project-from_ratio p b v w = λ i. record { precision = b; prefix = same i }
  where
    same : shr (take_bits 64 0 (bits p)).0 (sub_u 8 64 b.get) ≡ (take_bits b.get 0 (bits p)).0
    same =
        ap (λ n. shr n (sub_u 8 64 b.get)) (bits-floor p v 64 (omega arith))
        ∙ word_shift p.numerator p.denominator b.get w.at_most
        ∙ sym (bits-floor p v b.get w.at_most)

-- The 64-bit word of a valid phase has exactly the first 21 digits of the unbounded expansion.
pub octal_digit_msb-from_ratio :
    (p : PhaseRatio) (index : ℕ)
    → IsPhase p
    → octal_digit_msb (from_ratio p) index
      ≡ (if leb 21 index then none else some (Phase.octal_digit_msb p index))
unfolding octal_digit_msb from_ratio
octal_digit_msb-from_ratio p index v =
    rw (bits-floor p v 64 (omega arith)) (ground (arith, shifted_digit p 64 index v))
