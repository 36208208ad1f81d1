-- ===== src/Common/Bits.antt =====
-- The bit operations that the sources use, as arithmetic: appending a bit or a digit to a shifted
-- accumulator by `|`, and the masks `& 1` and `& 7`.
use Prim.Native.Nat.{digits, bit_and-bitwise, bit_or-bitwise}
use fractonica.Common.{
  ℕ, zero, suc, ◌+◌, ◌*◌, ◌/◌, ◌%◌, ◌≤◌, ◌<◌, ◌≡◌, refl, min, max, bit_and, bit_or, arith,
}

-- One digit of any operation that is defined digit by digit.
module _ (rest : ℕ → ℕ) (op : ℕ → ℕ → ℕ) where
  digits_enough : (n m a b : ℕ) → a ≤ n → a ≤ m → digits rest op n a b ≡ digits rest op m a b
  digits_enough zero zero a b p q = refl
  digits_enough zero (suc m) zero b p q = refl
  digits_enough zero (suc m) (suc a) b p q = absurd (omega arith)
  digits_enough (suc n) zero zero b p q = refl
  digits_enough (suc n) zero (suc a) b p q = absurd (omega arith)
  digits_enough (suc n) (suc m) zero b p q = refl
  digits_enough (suc n) (suc m) (suc a) b p q =
      omega (arith, digits_enough n m (suc a / 2) (b / 2) (omega arith) (omega arith))

  lowest_digit :
      ((b : ℕ) → rest b ≡ rest (b / 2) * 2 + op 0 (b % 2))
      → (a b : ℕ)
      → digits rest op a a b ≡ digits rest op (a / 2) (a / 2) (b / 2) * 2 + op (a % 2) (b % 2)
  lowest_digit end zero b = end b
  lowest_digit end (suc a) b =
      omega (arith, digits_enough a (suc a / 2) (suc a / 2) (b / 2) (omega arith) (omega arith))

bit_or_lowest : (a b : ℕ) → bit_or a b ≡ bit_or (a / 2) (b / 2) * 2 + max (a % 2) (b % 2)
bit_or_lowest a b = omega (
  arith,
  bit_or-bitwise a b,
  bit_or-bitwise (a / 2) (b / 2),
  lowest_digit (λ n. n) max (λ n. omega arith) a b,
)

bit_and_lowest : (a b : ℕ) → bit_and a b ≡ bit_and (a / 2) (b / 2) * 2 + min (a % 2) (b % 2)
bit_and_lowest a b = omega (
  arith,
  bit_and-bitwise a b,
  bit_and-bitwise (a / 2) (b / 2),
  lowest_digit (λ _. 0) min (λ n. omega arith) a b,
)

bit_or-zero_below : (n a : ℕ) → a ≤ n → bit_or a 0 ≡ a
bit_or-zero_below n zero h = refl
bit_or-zero_below zero (suc a) h = absurd (omega arith)
bit_or-zero_below (suc n) (suc a) h =
    omega (arith, bit_or_lowest (suc a) 0, bit_or-zero_below n (suc a / 2) (omega arith))

bit_or-zero : (a : ℕ) → bit_or a 0 ≡ a
bit_or-zero a = bit_or-zero_below a a (omega arith)

bit_and-zero_below : (n a : ℕ) → a ≤ n → bit_and a 0 ≡ 0
bit_and-zero_below n zero h = refl
bit_and-zero_below zero (suc a) h = absurd (omega arith)
bit_and-zero_below (suc n) (suc a) h =
    omega (arith, bit_and_lowest (suc a) 0, bit_and-zero_below n (suc a / 2) (omega arith))

bit_and-zero : (a : ℕ) → bit_and a 0 ≡ 0
bit_and-zero a = bit_and-zero_below a a (omega arith)

-- `(a << 1) | b` for a bit b.
pub bit_or_append_bit : (a b : ℕ) → b < 2 → bit_or (a * 2) b ≡ a * 2 + b
bit_or_append_bit a b h =
    let halves : bit_or (a * 2 / 2) (b / 2) ≡ a =
      rw (half_of_double, half_of_bit) (bit_or-zero a) in
    omega (arith, bit_or_lowest (a * 2) b)
  where
    half_of_double : a * 2 / 2 ≡ a
    half_of_double = omega arith

    half_of_bit : b / 2 ≡ 0
    half_of_bit = omega arith

-- `(a << 3) | d` for an octal digit d.
pub bit_or_append_digit : (a d : ℕ) → d < 8 → bit_or (a * 8) d ≡ a * 8 + d
bit_or_append_digit a d h = rw (bit_or_lowest (a * 8) d, half) (omega arith)
  where
    top : bit_or (a * 2) (d / 2 / 2) ≡ a * 2 + d / 2 / 2
    top = bit_or_append_bit a (d / 2 / 2) (omega arith)

    quarter : bit_or (a * 8 / 2 / 2) (d / 2 / 2) ≡ a * 2 + d / 2 / 2
    quarter = rw (eighth) top
      where
        eighth : a * 8 / 2 / 2 ≡ a * 2
        eighth = omega arith

    half : bit_or (a * 8 / 2) (d / 2) ≡ a * 4 + d / 2
    half = omega (arith, bit_or_lowest (a * 8 / 2) (d / 2), quarter)

-- `(a << 4) | d` for a hexadecimal digit d.
pub bit_or_append_nibble : (a d : ℕ) → d < 16 → bit_or (a * 16) d ≡ a * 16 + d
bit_or_append_nibble a d h =
    let halved : bit_or (a * 16 / 2) (d / 2) ≡ a * 8 + d / 2 =
      rw (half) (bit_or_append_digit a (d / 2) (omega arith)) in
    omega (arith, bit_or_lowest (a * 16) d)
  where
    half : a * 16 / 2 ≡ a * 8
    half = omega arith

-- `a & 1` and `a & 7`.
pub bit_and-one : (a : ℕ) → bit_and a 1 ≡ a % 2
bit_and-one a = omega (arith, bit_and_lowest a 1, bit_and-zero (a / 2))

pub bit_and_seven : (a : ℕ) → bit_and a 7 ≡ a % 8
bit_and_seven a =
    omega (arith, bit_and_lowest a 7, bit_and_lowest (a / 2) 3, bit_and-one (a / 2 / 2))

-- `(a << 5) | d` for d below 32, and `a & 31`.
pub bit_or_append_five : (a d : ℕ) → d < 32 → bit_or (a * 32) d ≡ a * 32 + d
bit_or_append_five a d h =
    let halved : bit_or (a * 32 / 2) (d / 2) ≡ a * 16 + d / 2 =
      rw (half) (bit_or_append_nibble a (d / 2) (omega arith)) in
    omega (arith, bit_or_lowest (a * 32) d)
  where
    half : a * 32 / 2 ≡ a * 16
    half = omega arith

pub bit_and_31 : (a : ℕ) → bit_and a 31 ≡ a % 32
bit_and_31 a =
    omega (arith, bit_and_lowest a 31, bit_and_lowest (a / 2) 15, bit_and_seven (a / 2 / 2))
