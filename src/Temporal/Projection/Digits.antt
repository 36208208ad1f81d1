-- ===== src/Temporal/Projection/Digits.antt =====
-- The digits of a projection and of the 64-bit word are those of the unbounded expansion.
use fractonica.Common.{
  ℕ, suc, ◌+◌, ◌-◌, ◌*◌, ◌/◌, ◌%◌, ◌^◌, ◌≤◌, ◌≡◌, sym, ap, ◌≡⟨◌⟩◌, ◌∎, bit_and, none, some, leb,
  if◌then◌else◌, arith,
}
use fractonica.Common.Words.{sub_u, shr}
use fractonica.Common.Bits.{bit_and_seven}
use fractonica.Common.Pow.{floor-shr, eight_pow}
use fractonica.Temporal.BitPrecision.{BitPrecision}
use fractonica.Temporal.Phase.{PhaseRatio, IsPhase}
use fractonica.Temporal.Phase
use fractonica.Temporal.Phase.Digits.{octal_digit_msb-floor}
use fractonica.Temporal.Projection.{project_with_remainder, project, octal_digit_msb}
use fractonica.Temporal.Projection.Exact.{IsPrecision, bits-floor}

-- Both kinds of digit shift the scaled phase to the right until `3 * (index + 1)` bits are left.
pub shifted_digit :
    (p : PhaseRatio) (n index : ℕ)
    → IsPhase p
    → n ≤ 64
    → 3 * suc index ≤ n
    → bit_and (shr (p.numerator * 2 ^ n / p.denominator) (sub_u 8 n ((index + 1) * 3 % 2 ^ 8))) 7
      ≡ Phase.octal_digit_msb p index
shifted_digit p n index v h fits =
    bit_and (shr whole shift) 7
    ≡⟨ ap (λ s. bit_and (shr whole s) 7) shift_is ⟩ bit_and (shr whole (n - kept)) 7
    ≡⟨ bit_and_seven _ ⟩ whole / 2 ^ (n - kept) % 8
    ≡⟨ ap (λ k. p.numerator * 2 ^ k / p.denominator / 2 ^ (n - kept) % 8) split ⟩
      p.numerator * 2 ^ (kept + (n - kept)) / p.denominator / 2 ^ (n - kept) % 8
    ≡⟨ ap (λ q. q % 8) (floor-shr p.numerator p.denominator kept (n - kept)) ⟩
      p.numerator * 2 ^ kept / p.denominator % 8
    ≡⟨ ap (λ k. p.numerator * k / p.denominator % 8) (sym (eight_pow (suc index))) ⟩
      p.numerator * 8 ^ suc index / p.denominator % 8
    ≡⟨ sym (octal_digit_msb-floor p index v) ⟩ Phase.octal_digit_msb p index ∎
  where
    whole : ℕ
    whole = p.numerator * 2 ^ n / p.denominator

    kept : ℕ
    kept = 3 * suc index

    shift : ℕ
    shift = sub_u 8 n ((index + 1) * 3 % 2 ^ 8)

    shift_is : shift ≡ n - kept
    shift_is = omega arith

    split : n ≡ kept + (n - kept)
    split = omega arith

-- For a valid phase and precision, the projection has a digit exactly at the places below a third
-- of its width, and it is that of the unbounded expansion.
pub octal_digit_msb-project :
    (p : PhaseRatio) (b : BitPrecision) (index : ℕ)
    → IsPhase p
    → IsPrecision b
    → octal_digit_msb (project p b) index
      ≡ (if leb (b.get / 3) index then none else some (Phase.octal_digit_msb p index))
unfolding octal_digit_msb project project_with_remainder
octal_digit_msb-project p b index v w =
    rw (bits-floor p v b.get w.at_most) (ground (arith, shifted_digit p b.get index v w.at_most))
