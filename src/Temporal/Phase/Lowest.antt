-- ===== src/Temporal/Phase/Lowest.antt =====
-- Construction reduces: a phase is in lowest terms, and equal phases are equal values.
use native.Mathlib.Nat
use fractonica.Common.{
  ℕ, ◌*◌, ◌/◌, ◌^◌, ◌≤◌, ◌<◌, ◌≡◌, ◌↔◌, ◌⊎◌, inl, inr, sym, ap, ◌≡⟨◌⟩◌, ◌∎, arith, dec_lt,
}
use fractonica.Common.Gcd.{greatest_common_divisor, num_split, den_split, lowest_num, lowest_den}
use fractonica.Common.Result.{ok, err}
use fractonica.Temporal.{invalid_phase_ratio}
use fractonica.Temporal.Phase.{PhaseRatio, IsPhase, from_valid_parts, new}

-- The reduced fraction has the value of the given one.
pub from_valid_parts-value :
    (a b : ℕ) → (from_valid_parts a b).numerator * b ≡ a * (from_valid_parts a b).denominator
unfolding from_valid_parts
from_valid_parts-value a b =
    a / g * b
    ≡⟨ ap (λ n. a / g * n) (sym (den_split a b)) ⟩ a / g * (b / g * g)
    ≡⟨ Nat.mul_left_comm (a / g) (b / g) g ⟩ b / g * (a / g * g)
    ≡⟨ ap (λ n. b / g * n) (num_split a b) ⟩ b / g * a
    ≡⟨ Nat.mul_comm (b / g) a ⟩ a * (b / g) ∎
  where
    g : ℕ
    g = greatest_common_divisor a b

pub from_valid_parts-IsPhase : (a b : ℕ) → a < b → b < 2 ^ 128 → IsPhase (from_valid_parts a b)
unfolding from_valid_parts
from_valid_parts-IsPhase a b h fits = record {
  below_one =
      Nat.lt_of_mul-lt-mul_right (greatest_common_divisor a b)
        (rw (num_split a b, den_split a b) h);
  fits = omega (arith, Nat.div-le_self b (greatest_common_divisor a b));
}

cross_of_equal_terms : (a b c d n e : ℕ) → 0 < e → n * b ≡ a * e → n * d ≡ c * e → a * d ≡ c * b
cross_of_equal_terms a b c d n e he p q = Nat.eq_of_mul-eq-mul_right e he _ _ (
    a * d * e
    ≡⟨ Nat.mul_right_comm a d e ⟩ a * e * d
    ≡⟨ ap (λ k. k * d) (sym p) ⟩ n * b * d
    ≡⟨ Nat.mul_right_comm n b d ⟩ n * d * b
    ≡⟨ ap (λ k. k * b) q ⟩ c * e * b
    ≡⟨ Nat.mul_right_comm c e b ⟩ c * b * e ∎)

from_valid_parts_pos : (a b : ℕ) → 0 < b → 0 < (from_valid_parts a b).denominator
unfolding from_valid_parts
from_valid_parts_pos a b hb =
    Nat.pos_of_dvd_of_pos (Nat.dvd-mul_right (b / g) g) (rw (den_split a b) hb)
  where
    g : ℕ
    g = greatest_common_divisor a b

equal_fractions :
    (a b c d : ℕ) → 0 < b → 0 < d → a * d ≡ c * b → from_valid_parts a b ≡ from_valid_parts c d
unfolding from_valid_parts
equal_fractions a b c d hb hd same = λ i. record {
  numerator = lowest_num a b c d hb hd same i;
  denominator = lowest_den a b c d hb hd same i;
}

-- Two fractions with positive denominators give the same phase exactly when they are equal as
-- rational numbers.
pub from_valid_parts-eq_iff :
    (a b c d : ℕ) → 0 < b → 0 < d → (from_valid_parts a b ≡ from_valid_parts c d) ↔ (a * d ≡ c * b)
from_valid_parts-eq_iff a b c d hb hd = (
  λ e.
      cross_of_equal_terms a b c d p.numerator p.denominator (from_valid_parts_pos a b hb)
        (from_valid_parts-value a b)
        (rw (ap (λ (q : PhaseRatio). q.numerator) e, ap (λ (q : PhaseRatio). q.denominator) e)
          (from_valid_parts-value c d)),
  equal_fractions a b c d hb hd,
)
  where
    p : PhaseRatio
    p = from_valid_parts a b

-- `PhaseRatio::new` on every input: it refuses what is not a fraction below one, and returns a phase
-- of the given value otherwise.
pub new-cases :
    (a b : ℕ)
    → b < 2 ^ 128
    → ((b ≤ a) × (new a b ≡ err invalid_phase_ratio))
      ⊎ ((a < b) × IsPhase (from_valid_parts a b) × (new a b ≡ ok (from_valid_parts a b)))
unfolding new
new-cases a b fits = elim (dec_lt a b) [
  | yes h ↦ inr (h, from_valid_parts-IsPhase a b h fits, ground arith)
  | no h ↦ inl (omega arith, ground arith)
]
