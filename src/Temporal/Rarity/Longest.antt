-- ===== src/Temporal/Rarity/Longest.antt =====
-- The longest suffix of a number that repeats an octal digit.
use native.Mathlib.Nat.{
  pow-zero, pow-suc, pow-succ', mod-one, div-div-eq-div-mul, mod-lt, div-add-mod',
  mul-add-mod_self_right, mod-eq_of_lt, mul_assoc, div-one,
}
use fractonica.Common.{
  ℕ, zero, suc, ◌+◌, ◌-◌, ◌*◌, ◌/◌, ◌%◌, ◌^◌, ◌≤◌, ◌<◌, ◌≡◌, ◌≢◌, sym, ap, ap₂, ◌∙◌, ◌≡⟨◌⟩◌, ◌∎,
  ◌==◌, Bool-cases, inl, inr, arith,
}
use fractonica.Common.Pow.{eight_pow_pos}
use fractonica.Temporal.Rarity.{suffix_loop}

-- The number whose n octal digits are all 1.
unfoldable pub ones : ℕ → ℕ
ones zero = 0
ones (suc n) = ones n * 8 + 1

pub seven_ones : (n : ℕ) → ones n * 7 + 1 ≡ 8 ^ n
unfolding ones
seven_ones zero = sym (pow-zero 8)
seven_ones (suc n) = omega (arith, seven_ones n, pow-suc 8 n)

-- `(stride - 1) / 7`
pub ones-eq : (n : ℕ) → (8 ^ n - 1) / 7 ≡ ones n
ones-eq n = omega (arith, seven_ones n)

-- The lowest n + 1 digits are the lowest digit and n digits above it.
pub low_digits : (n x : ℕ) → x % 8 ^ suc n ≡ x / 8 % 8 ^ n * 8 + x % 8
low_digits n x =
    x % 8 ^ suc n
    ≡⟨ ap₂ ◌%◌ whole (pow-suc 8 n) ⟩
      (x / 8 / 8 ^ n * (8 ^ n * 8) + (x / 8 % 8 ^ n * 8 + x % 8)) % (8 ^ n * 8)
    ≡⟨ mul-add-mod_self_right (x / 8 / 8 ^ n) (8 ^ n * 8) _ ⟩
      (x / 8 % 8 ^ n * 8 + x % 8) % (8 ^ n * 8)
    ≡⟨ mod-eq_of_lt small ⟩ x / 8 % 8 ^ n * 8 + x % 8 ∎
  where
    small : x / 8 % 8 ^ n * 8 + x % 8 < 8 ^ n * 8
    small = omega (arith, mod-lt (x / 8) (eight_pow_pos n))

    whole : x ≡ x / 8 / 8 ^ n * (8 ^ n * 8) + (x / 8 % 8 ^ n * 8 + x % 8)
    whole = omega (arith, div-add-mod' (x / 8) (8 ^ n), mul_assoc (x / 8 / 8 ^ n) (8 ^ n) 8)

-- s is the length of the longest suffix of x, within n digits, that repeats the digit d.
pub record Longest (d n x s : ℕ) : Type 0 where
  pub within : s ≤ n
  pub repeats : x % 8 ^ s ≡ d * ones s
  pub stops : s < n → x / 8 ^ s % 8 ≢ d

pub longer : (d n x s : ℕ) → x % 8 ≡ d → Longest d n (x / 8) s → Longest d (suc n) x (suc s)
unfolding ones
longer d n x s e v = record {
  within = omega (arith, v.within);
  repeats = omega (arith, low_digits s x, v.repeats, e);
  stops = λ h stop. v.stops (omega arith) (
      ap (λ q. q % 8) (div-div-eq-div-mul x 8 (8 ^ s) ∙ ap (λ m. x / m) (sym (pow-succ' 8 s)))
      ∙ stop);
}

pub empty-Longest : (d n x : ℕ) → (0 < n → x % 8 ≢ d) → Longest d n x 0
unfolding ones
empty-Longest d n x h = record {
  within = omega arith;
  repeats = omega (arith, pow-zero 8, mod-one x);
  stops = λ lt e. h lt (ap (λ q. q % 8) (sym (ap (λ m. x / m) (pow-zero 8) ∙ div-one x)) ∙ e);
}

-- The loop finds the longest suffix.
pub suffix_loop-Longest : (d n x : ℕ) → Longest d n x (suffix_loop d n x)
unfolding suffix_loop
suffix_loop-Longest d zero x = empty-Longest d zero x (λ h. absurd (omega arith))
suffix_loop-Longest d (suc n) x = elim (Bool-cases (x % 8 == d)) [
  | inl e ↦
      rw (e, suffix_loop)
        (longer d n x (suffix_loop d n (x / 8)) (ground arith) (suffix_loop-Longest d n (x / 8)))
  | inr ne ↦ rw (ne, suffix_loop) (empty-Longest d (suc n) x (λ _. ground arith))
]
