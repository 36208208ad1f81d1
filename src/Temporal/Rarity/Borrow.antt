-- ===== src/Temporal/Rarity/Borrow.antt =====
-- How subtracting 1 changes the octal digits of a number.
use native.Mathlib.Nat.{
  pow-suc, pow-succ', div-div-eq-div-mul, div-add-mod', mul_assoc, div-eq_of_lt-le, mul-pos,
}
use fractonica.Common.{
  ℕ, zero, suc, ◌+◌, ◌-◌, ◌*◌, ◌/◌, ◌%◌, ◌^◌, ◌≤◌, ◌≡◌, ◌≢◌, sym, ap, ◌∙◌, ◌≡⟨◌⟩◌, ◌∎, arith,
}
use fractonica.Common.Pow.{pow-add, eight_pow_pos}

-- One less than a positive multiple.
pub pred-div : (q p : ℕ) → 1 ≤ q → 1 ≤ p → (q * p - 1) / p ≡ q - 1
pred-div zero p hq hp = absurd (omega arith)
pred-div (suc c) p hq hp =
    let e : suc c - 1 ≡ c = omega arith in rw e (div-eq_of_lt-le p (omega arith) (omega arith))

-- How a borrow changes the digits of a number whose lowest k digits are 0 and whose next is not.
module _ (v k : ℕ) (zeros : v % 8 ^ k ≡ 0) (nonzero : v / 8 ^ k % 8 ≢ 0) where
  abbrev pub q : ℕ
  q = v / 8 ^ k

  pub multiple : v ≡ q * 8 ^ k
  multiple = omega (arith, div-add-mod' v (8 ^ k))

  pub pred-at : (v - 1) / 8 ^ k ≡ q - 1
  pred-at = ap (λ n. (n - 1) / 8 ^ k) multiple ∙ pred-div q (8 ^ k) (omega arith) (eight_pow_pos k)

  pub borrow_at : (v - 1) / 8 ^ k % 8 ≡ v / 8 ^ k % 8 - 1
  borrow_at = ap (λ n. n % 8) pred-at ∙ omega arith

  pub borrow_below : (m j : ℕ) → k ≡ suc m + j → (v - 1) / 8 ^ j % 8 ≡ 7
  borrow_below m j e =
      ap (λ n. (n - 1) / 8 ^ j % 8) split
      ∙ ap (λ n. n % 8)
          (pred-div (q * 8 ^ m * 8) (8 ^ j) (omega (arith, positive)) (eight_pow_pos j))
      ∙ omega (arith, positive)
    where
      positive : 1 ≤ q * 8 ^ m
      positive = mul-pos (omega arith) (eight_pow_pos m)

      split : v ≡ q * 8 ^ m * 8 * 8 ^ j
      split =
          v
          ≡⟨ multiple ⟩ q * 8 ^ k
          ≡⟨ ap (λ n. q * 8 ^ n) e ⟩ q * 8 ^ (suc m + j)
          ≡⟨ ap (λ n. q * n) (pow-add 8 (suc m) j) ⟩ q * (8 ^ suc m * 8 ^ j)
          ≡⟨ ap (λ n. q * (n * 8 ^ j)) (pow-suc 8 m) ⟩ q * (8 ^ m * 8 * 8 ^ j)
          ≡⟨ sym (mul_assoc q (8 ^ m * 8) (8 ^ j)) ⟩ q * (8 ^ m * 8) * 8 ^ j
          ≡⟨ ap (λ n. n * 8 ^ j) (sym (mul_assoc q (8 ^ m) 8)) ⟩ q * 8 ^ m * 8 * 8 ^ j ∎

  pub div_above : (n m : ℕ) → n / 8 ^ (k + suc m) ≡ n / 8 ^ k / 8 / 8 ^ m
  div_above n m =
      ap (λ p. n / p) (pow-add 8 k (suc m) ∙ ap (λ p. 8 ^ k * p) (pow-succ' 8 m))
      ∙ sym (div-div-eq-div-mul n (8 ^ k) (8 * 8 ^ m))
      ∙ sym (div-div-eq-div-mul (n / 8 ^ k) 8 (8 ^ m))

  pub borrow_above : (m j : ℕ) → j ≡ k + suc m → (v - 1) / 8 ^ j ≡ v / 8 ^ j
  borrow_above m j e =
      ap (λ i. (v - 1) / 8 ^ i) e
      ∙ div_above (v - 1) m
      ∙ ap (λ n. n / 8 / 8 ^ m) pred-at
      ∙ ap (λ n. n / 8 ^ m) (omega arith)
      ∙ sym (div_above v m)
      ∙ ap (λ i. v / 8 ^ i) (sym e)
