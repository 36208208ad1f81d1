-- ===== src/Temporal/Phase/Expansion.antt =====
-- The binary and octal expansion of a phase is exact: taking n bits is division by the denominator.
use native.Mathlib.Nat.{
  pow-suc, pow-succ', mul_assoc, mul_right_comm, le-mul_of_pos_right, one-le-pow, mod-eq_of_lt,
  mul-le-mul_right, pow-le-pow_right, div-eq_of_lt-le, mul-add-mod_self_right,
}
use fractonica.Common.{
  ℕ, zero, suc, ◌+◌, ◌*◌, ◌/◌, ◌%◌, ◌^◌, ◌≤◌, ◌<◌, ◌≡◌, refl, sym, ap, ◌∙◌, ◌≡⟨◌⟩◌, ◌∎, subst,
  bit_or, arith,
}
use fractonica.Common.Words.{shl_u}
use fractonica.Common.Bits.{bit_or_append_bit}
use fractonica.Temporal.Phase.{PhaseBitIter, next_bit, take_bits}

-- The iterator's invariant.
pub record IsIter (it : PhaseBitIter) : Type 0 where
  pub below_one : it.remainder < it.denominator
  pub fits : it.denominator < 2 ^ 128

-- One step doubles the remainder and splits off a bit, and nothing wraps around.
pub record Doubles (it : PhaseBitIter) (bit : ℕ) (after : PhaseBitIter) : Type 0 where
  pub is_bit : bit < 2
  pub same : after.denominator ≡ it.denominator
  pub split : it.remainder * 2 ≡ bit * it.denominator + after.remainder
  pub kept : IsIter after

pub next_bit-Doubles : (it : PhaseBitIter) → IsIter it → Doubles it (next_bit it).0 (next_bit it).1
unfolding next_bit
next_bit-Doubles it v = ground arith

-- `value` and `after` come from `acc` and `it` by n exact doublings.
pub record Takes (n acc : ℕ) (it : PhaseBitIter) (value : ℕ) (after : PhaseBitIter) : Type 0 where
  pub same : after.denominator ≡ it.denominator
  pub split :
      (acc * it.denominator + it.remainder) * 2 ^ n ≡ value * it.denominator + after.remainder
  pub kept : IsIter after

-- The shift drops no bit while the accumulator has room for the bits to come.
room_for_bit : (n acc : ℕ) → (acc + 1) * 2 ^ suc n ≤ 2 ^ 64 → (acc + 1) * 2 ≤ 2 ^ 64
room_for_bit n acc h = omega (
  arith,
  le-mul_of_pos_right ((acc + 1) * 2) (one-le-pow n 2 (omega arith)),
  ap (λ k. (acc + 1) * k) (pow-suc 2 n),
  mul_assoc (acc + 1) (2 ^ n) 2,
  mul_right_comm (acc + 1) (2 ^ n) 2,
)

append_bit :
    (n acc bit : ℕ)
    → (acc + 1) * 2 ^ suc n ≤ 2 ^ 64
    → bit < 2
    → bit_or (shl_u 64 acc 1) bit ≡ acc * 2 + bit
append_bit n acc bit h hb =
    rw (mod-eq_of_lt {n = acc * 2 ^ 1} {m = 2 ^ 64} (omega (arith, room_for_bit n acc h)))
      (bit_or_append_bit acc bit hb)

-- The room left after one more bit.
room_after :
    (n acc bit : ℕ)
    → (acc + 1) * 2 ^ suc n ≤ 2 ^ 64
    → bit < 2
    → (acc * 2 + bit + 1) * 2 ^ n ≤ 2 ^ 64
room_after n acc bit h hb = omega (
  arith,
  mul-le-mul_right {m = acc * 2 + bit + 1} {n = (acc + 1) * 2} (2 ^ n) (omega arith),
  ap (λ k. (acc + 1) * k) (pow-suc 2 n),
  mul_assoc (acc + 1) (2 ^ n) 2,
  mul_right_comm (acc + 1) (2 ^ n) 2,
)

-- Doubling first, and then n times, is doubling n + 1 times.
doublings :
    (n acc d r bit r' : ℕ)
    → r * 2 ≡ bit * d + r'
    → (acc * d + r) * 2 ^ suc n ≡ ((acc * 2 + bit) * d + r') * 2 ^ n
doublings n acc d r bit r' e =
    (acc * d + r) * 2 ^ suc n
    ≡⟨ ap (λ k. (acc * d + r) * k) (pow-succ' 2 n) ⟩ (acc * d + r) * (2 * 2 ^ n)
    ≡⟨ sym (mul_assoc (acc * d + r) 2 (2 ^ n)) ⟩ (acc * d + r) * 2 * 2 ^ n
    ≡⟨ ap (λ k. k * 2 ^ n) (omega (arith, e)) ⟩ ((acc * 2 + bit) * d + r') * 2 ^ n ∎

Takes-suc :
    (n acc bit value : ℕ) (it next last : PhaseBitIter)
    → Doubles it bit next
    → Takes n (acc * 2 + bit) next value last
    → Takes (suc n) acc it value last
Takes-suc n acc bit value it next last s rest = record {
  same = rest.same ∙ s.same;
  split =
      doublings n acc it.denominator it.remainder bit next.remainder s.split
      ∙ subst (λ d. ((acc * 2 + bit) * d + next.remainder) * 2 ^ n ≡ value * d + last.remainder)
          s.same rest.split;
  kept = rest.kept;
}

-- While the accumulator has room, n rounds of the loop multiply by 2 ^ n and divide exactly.
take_bits-Takes :
    (n acc : ℕ) (it : PhaseBitIter)
    → IsIter it
    → (acc + 1) * 2 ^ n ≤ 2 ^ 64
    → Takes n acc it (take_bits n acc it).0 (take_bits n acc it).1
unfolding take_bits
take_bits-Takes zero acc it v h = record { same = refl; split = omega arith; kept = v }
take_bits-Takes (suc n) acc it v h =
    let s = next_bit-Doubles it v in
    let bit = (next_bit it).0 in
    let next = (next_bit it).1 in
    subst (λ a. Takes (suc n) acc it (take_bits n a next).0 (take_bits n a next).1)
      (sym (append_bit n acc bit h s.is_bit))
      (Takes-suc n acc bit _ it next _ s
        (take_bits-Takes n (acc * 2 + bit) next s.kept (room_after n acc bit h s.is_bit)))

-- From an empty accumulator: the bits taken are the floor of r * 2 ^ n / d, and the remainder left
-- is the remainder of that division.
module _ (n : ℕ) (it : PhaseBitIter) (v : IsIter it) (h : n ≤ 64) where
  whole : Takes n 0 it (take_bits n 0 it).0 (take_bits n 0 it).1
  whole = take_bits-Takes n 0 it v (omega (arith, pow-le-pow_right {n = 2} (omega arith) h))

  divided :
      it.remainder * 2 ^ n ≡ (take_bits n 0 it).0 * it.denominator + (take_bits n 0 it).1.remainder
  divided = omega (arith, whole.split)

  left_below : (take_bits n 0 it).1.remainder < it.denominator
  left_below = omega (arith, whole.kept.below_one, whole.same)

  pub take_bits-floor : (take_bits n 0 it).0 ≡ it.remainder * 2 ^ n / it.denominator
  take_bits-floor =
      sym (div-eq_of_lt-le _ (omega (arith, divided)) (omega (arith, divided, left_below)))

  pub take_bits-remainder : (take_bits n 0 it).1.remainder ≡ it.remainder * 2 ^ n % it.denominator
  take_bits-remainder = rw divided (sym (mul-add-mod_self_right _ _ _ ∙ mod-eq_of_lt left_below))

  pub take_bits-kept :
      IsIter (take_bits n 0 it).1 × ((take_bits n 0 it).1.denominator ≡ it.denominator)
  take_bits-kept = (whole.kept, whole.same)
