-- ===== src/Temporal/Phase/Digits.antt =====
-- The unbounded octal expansion: digit i of a phase is the lowest octal digit of the floor of
-- 8 ^ (i + 1) times the phase.
use native.Mathlib.Nat.{
  div-eq_of_lt-le, mul-add-mod_self_right, mod-eq_of_lt, pow-zero, pow-suc, mul-one, mul_assoc,
  add-mul-mod_self_right, div-add-mod', pow-succ', add-mul, mul_right_comm,
}
use fractonica.Common.{
  ℕ, zero, suc, ◌+◌, ◌*◌, ◌/◌, ◌%◌, ◌^◌, ◌<◌, ◌≡◌, refl, sym, ap, ap₂, ◌∙◌, ◌≡⟨◌⟩◌, ◌∎, bit_or,
  arith,
}
use fractonica.Common.Words.{shl_u}
use fractonica.Common.Pow.{digit-of_remainder}
use fractonica.Temporal.Phase.{
  PhaseRatio, IsPhase, PhaseBitIter, bits, next_bit, next_digit, skip_digits, octal_digit_msb,
}
use fractonica.Temporal.Phase.Expansion.{IsIter, Doubles, next_bit-Doubles}

-- `(high << 2) | (middle << 1) | low`
pack_bits :
    (h m l : ℕ)
    → h < 2
    → m < 2
    → l < 2
    → bit_or (bit_or (shl_u 8 h 2) (shl_u 8 m 1)) l ≡ h * 4 + m * 2 + l
pack_bits zero zero zero _ _ _ = refl
pack_bits zero zero (suc zero) _ _ _ = refl
pack_bits zero (suc zero) zero _ _ _ = refl
pack_bits zero (suc zero) (suc zero) _ _ _ = refl
pack_bits (suc zero) zero zero _ _ _ = refl
pack_bits (suc zero) zero (suc zero) _ _ _ = refl
pack_bits (suc zero) (suc zero) zero _ _ _ = refl
pack_bits (suc zero) (suc zero) (suc zero) _ _ _ = refl
pack_bits (suc (suc h)) m l hh hm hl = absurd (omega arith)
pack_bits h (suc (suc m)) l hh hm hl = absurd (omega arith)
pack_bits h m (suc (suc l)) hh hm hl = absurd (omega arith)

-- One octal digit multiplies the remainder by eight.
pub record Octuples (it : PhaseBitIter) (digit : ℕ) (after : PhaseBitIter) : Type 0 where
  pub is_digit : digit < 8
  pub same : after.denominator ≡ it.denominator
  pub split : it.remainder * 8 ≡ digit * it.denominator + after.remainder
  pub kept : IsIter after

three_bits :
    (it it₁ it₂ it₃ : PhaseBitIter) (h m l : ℕ)
    → Doubles it h it₁
    → Doubles it₁ m it₂
    → Doubles it₂ l it₃
    → Octuples it (h * 4 + m * 2 + l) it₃
three_bits it it₁ it₂ it₃ h m l a b c = record {
  is_digit = omega arith;
  same = c.same ∙ b.same ∙ a.same;
  split =
      omega (
        arith,
        ap (λ d. m * d) a.same,
        ap (λ d. l * d) (b.same ∙ a.same),
        a.split,
        b.split,
        c.split,
      );
  kept = c.kept;
}

next_digit-Octuples :
    (it : PhaseBitIter) → IsIter it → Octuples it (next_digit it).0 (next_digit it).1
unfolding next_digit
next_digit-Octuples it v =
    let a = next_bit-Doubles it v in
    let b = next_bit-Doubles (next_bit it).1 a.kept in
    let c = next_bit-Doubles (next_bit (next_bit it).1).1 b.kept in
    rw (pack_bits _ _ _ a.is_bit b.is_bit c.is_bit)
      (three_bits it _ _ (next_bit (next_bit (next_bit it).1).1).1 _ _ _ a b c)

module _ (it : PhaseBitIter) (digit : ℕ) (after : PhaseBitIter) (s : Octuples it digit after) where
  left_below : after.remainder < it.denominator
  left_below = omega (arith, s.kept.below_one, s.same)

  Octuples-digit : digit ≡ it.remainder * 8 / it.denominator
  Octuples-digit =
      sym (div-eq_of_lt-le _ (omega (arith, s.split)) (omega (arith, s.split, left_below)))

  Octuples-remainder : after.remainder ≡ it.remainder * 8 % it.denominator
  Octuples-remainder = rw s.split (sym (mul-add-mod_self_right _ _ _ ∙ mod-eq_of_lt left_below))

-- After `count` digits the remainder is that of 8 ^ count times the phase.
pub record Skips (count : ℕ) (it after : PhaseBitIter) : Type 0 where
  pub same : after.denominator ≡ it.denominator
  pub left : after.remainder ≡ it.remainder * 8 ^ count % it.denominator
  pub kept : IsIter after

mod-mul : (a b d : ℕ) → a % d * b % d ≡ a * b % d
mod-mul a b d = sym (ap (λ n. n % d) regroup ∙ add-mul-mod_self_right (a % d * b) (a / d * b) d)
  where
    regroup : a * b ≡ a % d * b + a / d * b * d
    regroup =
        a * b
        ≡⟨ ap (λ n. n * b) (sym (div-add-mod' a d)) ⟩ (a / d * d + a % d) * b
        ≡⟨ omega (arith, add-mul (a / d * d) (a % d) b, mul_right_comm (a / d) d b) ⟩
          a % d * b + a / d * b * d ∎

skip_digits-Skips :
    (count : ℕ) (it : PhaseBitIter) → IsIter it → Skips count it (skip_digits count it)
unfolding skip_digits
skip_digits-Skips zero it v = record {
  same = refl;
  left = rw (pow-zero 8, mul-one) (sym (mod-eq_of_lt v.below_one));
  kept = v;
}
skip_digits-Skips (suc count) it v =
    let next = (next_digit it).1 in
    let s = next_digit-Octuples it v in
    let rest = skip_digits-Skips count next s.kept in
    record {
      same = rest.same ∙ s.same;
      left =
          rest.left
          ∙ ap₂ (λ r d. r * 8 ^ count % d) (Octuples-remainder it _ next s) s.same
          ∙ mod-mul (it.remainder * 8) (8 ^ count) it.denominator
          ∙ ap (λ n. n % it.denominator)
              (mul_assoc it.remainder 8 (8 ^ count)
                ∙ ap (λ n. it.remainder * n) (sym (pow-succ' 8 count)));
      kept = rest.kept;
    }

-- Digit i of the unbounded octal expansion of a valid phase is the lowest octal digit of the floor
-- of 8 ^ (i + 1) times the phase, at every index.
pub octal_digit_msb-floor :
    (p : PhaseRatio) (index : ℕ)
    → IsPhase p
    → octal_digit_msb p index ≡ p.numerator * 8 ^ suc index / p.denominator % 8
unfolding octal_digit_msb bits
octal_digit_msb-floor p index v =
    let start : PhaseBitIter = bits p in
    let s = skip_digits-Skips index start (record { below_one = v.below_one; fits = v.fits }) in
    Octuples-digit _ _ _ (next_digit-Octuples (skip_digits index start) s.kept)
    ∙ ap₂ (λ r d. r * 8 / d) s.left s.same
    ∙ digit-of_remainder (p.numerator * 8 ^ index) 8 p.denominator (omega (arith, v.below_one))
        (omega arith)
    ∙ ap (λ n. n / p.denominator % 8)
        (mul_assoc p.numerator (8 ^ index) 8 ∙ ap (λ n. p.numerator * n) (sym (pow-suc 8 index)))
