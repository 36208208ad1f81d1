-- ===== src/Common/Pow.antt =====
-- Powers of two and of eight, and how a shift meets a division.
use native.Mathlib.Nat.{
  pow-zero, pow-suc, mul_assoc, mul-one, add-zero, add-suc, div-div-eq-div-mul, mul-div-mul_right,
  one-le-pow, add-mul-div_right, add-mul-mod_self_right, mul_comm, div-lt_iff_lt-mul, div-add-mod',
  add-mul, mul_right_comm, mod-lt, mod-eq_of_lt, mul-lt-mul_of_pos_right,
}
use fractonica.Common.{
  ℕ, zero, suc, ◌+◌, ◌*◌, ◌/◌, ◌%◌, ◌^◌, ◌<◌, ◌≡◌, sym, ap, ap₂, ◌∙◌, ◌≡⟨◌⟩◌, ◌∎, refl, arith,
}

pub pow-add : (b m n : ℕ) → b ^ (m + n) ≡ b ^ m * b ^ n
pow-add b m zero = rw (add-zero m, pow-zero b) (sym (mul-one (b ^ m)))
pow-add b m (suc n) =
    rw (add-suc m n, pow-suc b (m + n), pow-add b m n, pow-suc b n) (mul_assoc _ _ _)

pub eight_pow : (n : ℕ) → 8 ^ n ≡ 2 ^ (3 * n)
eight_pow zero = refl
eight_pow (suc n) = rw (pow-suc 8 n, eight_pow n) (sym (split ∙ pow-add 2 (3 * n) 3))
  where
    split : 2 ^ (3 * suc n) ≡ 2 ^ (3 * n + 3)
    split = ap (λ k. 2 ^ k) (omega arith)

pub two_pow_pos : (n : ℕ) → 0 < 2 ^ n
two_pow_pos n = one-le-pow n 2 (omega arith)

pub eight_pow_pos : (n : ℕ) → 0 < 8 ^ n
eight_pow_pos n = one-le-pow n 8 (omega arith)

-- Shifting a quotient to the right takes that many doublings back.
pub floor-shr : (a d k s : ℕ) → a * 2 ^ (k + s) / d / 2 ^ s ≡ a * 2 ^ k / d
floor-shr a d k s =
    a * 2 ^ (k + s) / d / 2 ^ s
    ≡⟨ div-div-eq-div-mul _ d (2 ^ s) ⟩ a * 2 ^ (k + s) / (d * 2 ^ s)
    ≡⟨ ap (λ n. a * n / (d * 2 ^ s)) (pow-add 2 k s) ⟩ a * (2 ^ k * 2 ^ s) / (d * 2 ^ s)
    ≡⟨ ap (λ n. n / (d * 2 ^ s)) (sym (mul_assoc a (2 ^ k) (2 ^ s))) ⟩
      a * 2 ^ k * 2 ^ s / (d * 2 ^ s)
    ≡⟨ mul-div-mul_right (a * 2 ^ k) d (two_pow_pos s) ⟩ a * 2 ^ k / d ∎

-- The digit in radix b that a remainder yields is the lowest digit of the scaled quotient.
pub digit-of_remainder : (a b d : ℕ) → 0 < d → 0 < b → a % d * b / d ≡ a * b / d % b
digit-of_remainder a b d hd hb = sym (
    a * b / d % b
    ≡⟨ ap (λ n. n * b / d % b) (sym (div-add-mod' a d)) ⟩ (a / d * d + a % d) * b / d % b
    ≡⟨ ap (λ n. n / d % b) regroup ⟩ (a % d * b + a / d * b * d) / d % b
    ≡⟨ ap (λ n. n % b) (add-mul-div_right (a % d * b) (a / d * b) hd) ⟩
      (a % d * b / d + a / d * b) % b
    ≡⟨ add-mul-mod_self_right (a % d * b / d) (a / d) b ⟩ a % d * b / d % b
    ≡⟨ mod-eq_of_lt small ⟩ a % d * b / d ∎)
  where
    regroup : (a / d * d + a % d) * b ≡ a % d * b + a / d * b * d
    regroup = omega (arith, add-mul (a / d * d) (a % d) b, mul_right_comm (a / d) d b)

    small : a % d * b / d < b
    small =
        (div-lt_iff_lt-mul hd).1
          (omega (arith, mul-lt-mul_of_pos_right {k = b} (mod-lt a hd) hb, mul_comm b d))

-- Equal fractions have equal scaled floors.
pub floor_cross : (a b c d k : ℕ) → 0 < b → 0 < d → a * d ≡ c * b → a * k / b ≡ c * k / d
floor_cross a b c d k hb hd same =
    a * k / b
    ≡⟨ sym (mul-div-mul_right (a * k) b hd) ⟩ a * k * d / (b * d)
    ≡⟨ ap (λ n. n / (b * d)) (mul_right_comm a k d) ⟩ a * d * k / (b * d)
    ≡⟨ ap (λ n. n * k / (b * d)) same ⟩ c * b * k / (b * d)
    ≡⟨ ap₂ ◌/◌ (mul_right_comm c b k) (mul_comm b d) ⟩ c * k * b / (d * b)
    ≡⟨ mul-div-mul_right (c * k) d hb ⟩ c * k / d ∎
