-- ===== src/Temporal/Phase.antt =====
-- `PhaseRatio`, `PhaseBitIter` and `OctalDigitIter`. Every `u128` is a native number; the operations
-- write out the wrap-around that the methods are built to avoid.
pub mod Expansion
pub mod Digits
pub mod Lowest
use fractonica.Common.{ℕ, zero, suc, ◌+◌, ◌*◌, ◌/◌, ◌%◌, ◌^◌, ◌<◌, ◌||◌, bit_or, ltb, leb, ◌==◌}
use fractonica.Common.{List, [], ◌∷◌, if◌then◌else◌}
use fractonica.Common.Result.{ok, err, ◌>>=◌, ◌>>◌, refuse}
use fractonica.Common.Words.{add_u, sub_u, shl_u}
use fractonica.Common.Gcd.{greatest_common_divisor}
use fractonica.Temporal.{TemporalError, invalid_phase_ratio, Outcome}

pub record PhaseRatio : Type 0 where
  pub numerator : ℕ
  pub denominator : ℕ

-- The invariant that the private fields protect: a fraction below one, in a `u128`.
pub record IsPhase (p : PhaseRatio) : Type 0 where
  pub below_one : p.numerator < p.denominator
  pub fits : p.denominator < 2 ^ 128

unfoldable pub from_valid_parts : ℕ → ℕ → PhaseRatio
from_valid_parts numerator denominator =
    let divisor = greatest_common_divisor numerator denominator in
    record { numerator = numerator / divisor; denominator = denominator / divisor }

unfoldable pub new : ℕ → ℕ → Outcome PhaseRatio
new numerator denominator =
    if (denominator == 0) || leb denominator numerator
    then err invalid_phase_ratio
    else ok (from_valid_parts numerator denominator)

pub record PhaseBitIter : Type 0 where
  pub remainder : ℕ
  pub denominator : ℕ

unfoldable pub bits : PhaseRatio → PhaseBitIter
bits p = record { remainder = p.numerator; denominator = p.denominator }

-- The bit, and the iterator afterwards.
unfoldable pub next_bit : PhaseBitIter → ℕ × PhaseBitIter
next_bit it =
    let complement = sub_u 128 it.denominator it.remainder in
    if leb complement it.remainder
    then (1, record it { remainder = sub_u 128 it.remainder complement })
    else (0, record it { remainder = add_u 128 it.remainder it.remainder })

-- `for _ in 0..n { prefix = (prefix << 1) | u64::from(bits.next_bit()); }`
unfoldable pub take_bits : ℕ → ℕ → PhaseBitIter → ℕ × PhaseBitIter
take_bits zero prefix it = (prefix, it)
take_bits (suc n) prefix it =
    take_bits n (bit_or (shl_u 64 prefix 1) (next_bit it).0) (next_bit it).1

-- `OctalDigitIter` is its `bits`.
unfoldable pub next_digit : PhaseBitIter → ℕ × PhaseBitIter
next_digit it =
    let (high, it₁) = next_bit it in
    let (middle, it₂) = next_bit it₁ in
    let (low, it₃) = next_bit it₂ in (bit_or (bit_or (shl_u 8 high 2) (shl_u 8 middle 1)) low, it₃)

-- The iterator after `count` digits were taken from it.
unfoldable pub skip_digits : ℕ → PhaseBitIter → PhaseBitIter
skip_digits zero it = it
skip_digits (suc count) it = skip_digits count (next_digit it).1

unfoldable pub octal_digit_msb : PhaseRatio → ℕ → ℕ
octal_digit_msb p index = (next_digit (skip_digits index (bits p))).0

-- `write_octal_ascii`: every byte of the output is overwritten.
write_digits : PhaseBitIter → List ℕ → List ℕ
write_digits it [] = []
write_digits it (_ ∷ output) = add_u 8 48 (next_digit it).0 ∷ write_digits (next_digit it).1 output

unfoldable pub write_octal_ascii : PhaseRatio → List ℕ → List ℕ
unfolding write_digits
write_octal_ascii p output = write_digits (bits p) output
