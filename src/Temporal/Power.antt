-- ===== src/Temporal/Power.antt =====
-- `octal_power_u64` and `octal_power_u128`: checked powers of eight.
use native.Mathlib.Nat.{pow-zero, pow-succ', mul-one, mul_assoc, pow-le-pow_right, one-mul}
use fractonica.Common.{
  ℕ, zero, suc, ◌*◌, ◌^◌, ◌≤◌, ◌<◌, ◌≡◌, ◌||◌, ◌==◌, sym, ap, ◌∙◌, Option, none, some, ltb, leb,
  if◌then◌else◌, arith, dec_lt,
}
use fractonica.Common.Words.{checked_mul_u}
use fractonica.Common.Pow.{eight_pow_pos}
use fractonica.Temporal.{radix, phase_word_octal_digits}

-- The `while` loop with `left` rounds to go: `result.checked_mul(RADIX)` or an early return.
unfoldable pub power_loop : ℕ → ℕ → ℕ → Option ℕ
power_loop w zero result = some result
power_loop w (suc left) result = elim (checked_mul_u w result radix) [
  | none ↦ none
  | some value ↦ power_loop w left value
]

unfoldable pub octal_power_u64 : ℕ → Option ℕ
unfolding power_loop
octal_power_u64 exponent =
    if (exponent == 0) || ltb phase_word_octal_digits exponent
    then none
    else power_loop 64 exponent 1

unfoldable pub octal_power_u128 : ℕ → Option ℕ
unfolding power_loop
octal_power_u128 exponent = power_loop 128 exponent 1

pub next_power : (left result : ℕ) → result * 8 ^ suc left ≡ result * 8 * 8 ^ left
next_power left result =
    ap (λ n. result * n) (pow-succ' 8 left) ∙ sym (mul_assoc result 8 (8 ^ left))

pub no_less : (left result : ℕ) → result ≤ result * 8 ^ left
no_less left result = grind (arith, eight_pow_pos left)

-- The loop returns the product exactly when it fits the type.
power_loop_lem :
    (w left result : ℕ)
    → result < 2 ^ w
    → power_loop w left result
      ≡ (if ltb (result * 8 ^ left) (2 ^ w) then some (result * 8 ^ left) else none)
unfolding power_loop
power_loop_lem w zero result h = ground (arith, mul-one result, pow-zero 8)
power_loop_lem w (suc left) result h =
    ground
      (arith, next_power left result, no_less left (result * 8), power_loop_lem w left (result * 8))

-- octal_power_u128 is 8 ^ n up to the exponent 42, and nothing above.
pub octal_power_u128_lem : (n : ℕ) → octal_power_u128 n ≡ (if leb n 42 then some (8 ^ n) else none)
unfolding octal_power_u128
octal_power_u128_lem n =
    rw (power_loop_lem 128 n 1 (omega arith), one-mul (8 ^ n))
      (elim (dec_lt n 43) [
        | yes h ↦
            ground (arith, pow-le-pow_right {n = 8} (omega arith) {i = n} {j = 42} (omega arith))
        | no h ↦
            ground (arith, pow-le-pow_right {n = 8} (omega arith) {i = 43} {j = n} (omega arith))
      ])

-- octal_power_u64 is 8 ^ n for the lengths 1 to 21, and nothing for any other.
pub octal_power_u64_lem :
    (n : ℕ) → octal_power_u64 n ≡ (if (n == 0) || ltb 21 n then none else some (8 ^ n))
unfolding octal_power_u64
octal_power_u64_lem n = elim (dec_lt n 22) [
  | yes h ↦
      rw (power_loop_lem 64 n 1 (omega arith), one-mul (8 ^ n))
        (ground (arith, pow-le-pow_right {n = 8} (omega arith) {i = n} {j = 21} (omega arith)))
  | no h ↦ ground arith
]
