-- ===== src/Temporal/Projection/Exact.antt =====
-- A projection is the exact floor of the scaled phase, with the exact progress in its bucket.
use native.Mathlib.Nat.{
  div-lt_iff_lt-mul, div-mul-le_self, lt-div-mul-add, mul-lt-mul_of_pos_right, pow-le-pow_right,
  mod-eq_of_lt, one-mul,
}
use native.Mathlib.Nat
use fractonica.Common.{ℕ, ◌+◌, ◌*◌, ◌/◌, ◌%◌, ◌^◌, ◌≤◌, ◌<◌, ◌≡◌, refl, sym, ap, ◌∙◌, arith}
use fractonica.Common.Pow.{two_pow_pos}
use fractonica.Temporal.BitPrecision.{BitPrecision}
use fractonica.Temporal.Phase.{PhaseRatio, IsPhase, PhaseBitIter, bits, take_bits, from_valid_parts}
use fractonica.Temporal.Phase.Expansion.{
  IsIter, take_bits-floor, take_bits-remainder, take_bits-kept,
}
use fractonica.Temporal.Phase.Lowest.{from_valid_parts-value, from_valid_parts-IsPhase}
use fractonica.Temporal.Projection.{
  PhaseProjection, PhaseBoundary, project_with_remainder, project, denominator, next_boundary,
}

-- What `BitPrecision::new` lets through.
pub record IsPrecision (b : BitPrecision) : Type 0 where
  pub at_least : 1 ≤ b.get
  pub at_most : b.get ≤ 64

-- The scaled phase p.numerator * 2 ^ b / p.denominator splits into the prefix and the progress.
pub record Projects (p : PhaseRatio) (b : BitPrecision) (out : PhaseProjection × PhaseRatio)
    : Type 0 where
  pub width : (out.0).precision ≡ b
  pub prefix_is : (out.0).prefix ≡ p.numerator * 2 ^ b.get / p.denominator
  pub prefix_fits : (out.0).prefix < 2 ^ b.get
  pub progress_is :
      (out.1).numerator * p.denominator
      ≡ p.numerator * 2 ^ b.get % p.denominator * (out.1).denominator
  pub progress_valid : IsPhase out.1

module _ (p : PhaseRatio) (v : IsPhase p) (n : ℕ) (h : n ≤ 64) where
  start : IsIter (bits p)
  unfolding bits
  start = record { below_one = v.below_one; fits = v.fits }

  pub bits-floor : (take_bits n 0 (bits p)).0 ≡ p.numerator * 2 ^ n / p.denominator
  unfolding bits
  bits-floor = take_bits-floor n (bits p) start h

  floor-lt : p.numerator * 2 ^ n / p.denominator < 2 ^ n
  floor-lt =
      (div-lt_iff_lt-mul (omega (arith, v.below_one))).1
        (rw (Nat.mul_comm (2 ^ n)) (mul-lt-mul_of_pos_right v.below_one (two_pow_pos n)))

-- For a valid phase and precision, the projection is the floor of 2 ^ bits times the phase, below
-- 2 ^ bits, and the second result is the exact progress inside that bucket.
pub project_with_remainder-Projects :
    (p : PhaseRatio) (b : BitPrecision)
    → IsPhase p
    → IsPrecision b
    → Projects p b (project_with_remainder p b)
unfolding project_with_remainder bits
project_with_remainder-Projects p b v w =
    let it : PhaseBitIter = bits p in
    let iv : IsIter it = record { below_one = v.below_one; fits = v.fits } in
    let (kept, same) = take_bits-kept b.get it iv w.at_most in
    let r = (take_bits b.get 0 it).1 in
    record {
      width = refl;
      prefix_is = bits-floor p v b.get w.at_most;
      prefix_fits = rw (bits-floor p v b.get w.at_most) (floor-lt p v b.get w.at_most);
      progress_is =
          rw (ap (λ d. (from_valid_parts r.remainder r.denominator).numerator * d) (sym same)) (
            from_valid_parts-value r.remainder r.denominator
            ∙ ap (λ n. n * (from_valid_parts r.remainder r.denominator).denominator)
                (take_bits-remainder b.get it iv w.at_most));
      progress_valid = from_valid_parts-IsPhase r.remainder r.denominator kept.below_one kept.fits;
    }

-- The bucket of a phase: from its prefix up to the boundary that `next_boundary` returns.
pub record Brackets (p : PhaseRatio) (b : BitPrecision) (boundary : PhaseBoundary) : Type 0 where
  pub scale : boundary.denominator ≡ 2 ^ b.get
  pub reached : (project p b).prefix * p.denominator ≤ p.numerator * boundary.denominator
  pub next_one : boundary.numerator ≡ (project p b).prefix + 1
  pub not_reached : p.numerator * boundary.denominator < boundary.numerator * p.denominator
  pub inside : boundary.numerator ≤ boundary.denominator

word_sized : (b : BitPrecision) → IsPrecision b → 2 ^ b.get ≤ 2 ^ 64
word_sized b w = pow-le-pow_right {n = 2} (omega arith) w.at_most

denominator_lem :
    (q : PhaseProjection) → IsPrecision q.precision → denominator q ≡ 2 ^ q.precision.get
unfolding denominator
denominator_lem q w = rw one-mul (mod-eq_of_lt (omega (arith, word_sized q.precision w)))

-- A valid phase, projected at a valid precision, lies at or above the start of its bucket and
-- strictly below the next boundary, which is at most one and does not wrap around.
pub next_boundary-Brackets :
    (p : PhaseRatio) (b : BitPrecision)
    → IsPhase p
    → IsPrecision b
    → Brackets p b (next_boundary (project p b))
unfolding next_boundary project
next_boundary-Brackets p b v w = record {
  scale = scale;
  reached = rw scale (omega (arith, below));
  next_one = next_one;
  not_reached = rw (scale, next_one) (omega (arith, above));
  inside = rw (scale, next_one) (omega (arith, e.prefix_fits));
}
  where
    q : PhaseProjection
    q = project p b

    e : Projects p b (project_with_remainder p b)
    e = project_with_remainder-Projects p b v w

    scale : denominator q ≡ 2 ^ b.get
    scale = denominator_lem q (rw e.width w) ∙ ap (λ (c : BitPrecision). 2 ^ c.get) e.width

    next_one : (q.prefix + 1) % 2 ^ 128 ≡ q.prefix + 1
    next_one = mod-eq_of_lt (omega (arith, e.prefix_fits, word_sized b w))

    below : q.prefix * p.denominator ≤ p.numerator * 2 ^ b.get
    below = rw e.prefix_is (div-mul-le_self (p.numerator * 2 ^ b.get) p.denominator)

    above : p.numerator * 2 ^ b.get < (q.prefix + 1) * p.denominator
    above = omega (
      arith,
      ap (λ n. n * p.denominator) e.prefix_is,
      lt-div-mul-add {a = p.numerator * 2 ^ b.get} {b = p.denominator} (omega (arith, v.below_one)),
    )
