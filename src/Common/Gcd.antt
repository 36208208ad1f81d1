-- ===== src/Common/Gcd.antt =====
-- Euclid's loop, as the sources write it, and why dividing by its result gives lowest terms.
use mathlib.Core.WellFounded.{Acc}
use native.Mathlib.Nat
use fractonica.Common.Order.{lt_wf}
use fractonica.Common.{
  ℕ, zero, suc, ◌+◌, ◌*◌, ◌/◌, ◌%◌, ◌<◌, ◌∣◌, ◌≡◌, sym, ap, ap₂, ◌∙◌, arith, ◌≡⟨◌⟩◌, ◌∎,
}

smaller_remainder : (left c : ℕ) → left % suc c < suc c
smaller_remainder left c = omega arith

-- `while right != 0 { (left, right) = (right, left % right) }`
gcd_loop : (left right : ℕ) → Acc ◌<◌ right → ℕ
gcd_loop left right (Acc.intro zero _) = left
gcd_loop left right (Acc.intro (suc c) below) =
    gcd_loop (suc c) (left % suc c) (below (left % suc c) (smaller_remainder left c))

unfoldable pub greatest_common_divisor : ℕ → ℕ → ℕ
unfolding gcd_loop lt_wf smaller_remainder
greatest_common_divisor left right = gcd_loop left right (lt_wf.apply right)

gcd_loop-dvd : (a b : ℕ) (w : Acc ◌<◌ b) → (gcd_loop a b w ∣ a) × (gcd_loop a b w ∣ b)
unfolding gcd_loop
gcd_loop-dvd a b (Acc.intro zero _) = (Nat.dvd_refl a, Nat.dvd-zero a)
gcd_loop-dvd a b (Acc.intro (suc c) below) =
    let (hb, hr) = gcd_loop-dvd (suc c) (a % suc c) (below _ (smaller_remainder a c)) in
    ((Nat.dvd-mod_iff _ hb).0 hr, hb)

-- The result divides both numbers.
gcd-dvd : (a b : ℕ) → (greatest_common_divisor a b ∣ a) × (greatest_common_divisor a b ∣ b)
unfolding greatest_common_divisor
gcd-dvd a b = gcd_loop-dvd a b (lt_wf.apply b)

dvd-mod-mul : (k a m c : ℕ) → k ∣ a * c → k ∣ m * c → k ∣ a % m * c
dvd-mod-mul k a m c ha hm =
    (Nat.dvd-add_iff_right k (Nat.dvd-mul_right_of_dvd k hm (a / m))).1 (rw split at ha)
  where
    split : a * c ≡ m * c * (a / m) + a % m * c
    split =
        a * c
        ≡⟨ ap (λ n. n * c) (sym (Nat.div-add-mod a m)) ⟩ (m * (a / m) + a % m) * c
        ≡⟨ Nat.add-mul _ _ c ⟩ m * (a / m) * c + a % m * c
        ≡⟨ ap (λ n. n + a % m * c) (Nat.mul_right_comm m (a / m) c) ⟩ m * c * (a / m) + a % m * c ∎

dvd-gcd_loop-mul : (k c a b : ℕ) (w : Acc ◌<◌ b) → k ∣ a * c → k ∣ b * c → k ∣ gcd_loop a b w * c
unfolding gcd_loop
dvd-gcd_loop-mul k c a b (Acc.intro zero _) ha hb = ha
dvd-gcd_loop-mul k c a b (Acc.intro (suc m) below) ha hb =
    dvd-gcd_loop-mul k c (suc m) (a % suc m) (below _ (smaller_remainder a m)) hb
      (dvd-mod-mul k a (suc m) c ha hb)

-- What divides both multiples divides that multiple of the result.
dvd-gcd-mul : (k c a b : ℕ) → k ∣ a * c → k ∣ b * c → k ∣ greatest_common_divisor a b * c
unfolding greatest_common_divisor
dvd-gcd-mul k c a b = dvd-gcd_loop-mul k c a b (lt_wf.apply b)

pub gcd_pos : (a b : ℕ) → 0 < b → 0 < greatest_common_divisor a b
gcd_pos a b h = Nat.pos_of_dvd_of_pos (gcd-dvd a b).1 h

-- A fraction and its lowest terms.
module _ (a b : ℕ) where
  pub num_split : a / greatest_common_divisor a b * greatest_common_divisor a b ≡ a
  num_split = Nat.div-mul_cancel _ (gcd-dvd a b).0

  pub den_split : b / greatest_common_divisor a b * greatest_common_divisor a b ≡ b
  den_split = Nat.div-mul_cancel _ (gcd-dvd a b).1

gcd_cross_dvd :
    (a b c d : ℕ)
    → a * d ≡ c * b
    → b * greatest_common_divisor c d ∣ greatest_common_divisor a b * d
gcd_cross_dvd a b c d same =
    dvd-gcd-mul _ d a b (rw (same, Nat.mul_comm c b) (Nat.mul-dvd-mul_left _ b (gcd-dvd c d).0))
      (Nat.mul-dvd-mul_left _ b (gcd-dvd c d).1)

-- Equal fractions have the same lowest terms.
module _ (a b c d : ℕ) (hb : 0 < b) (hd : 0 < d) (same : a * d ≡ c * b) where
  abbrev g : ℕ
  g = greatest_common_divisor a b

  abbrev h : ℕ
  h = greatest_common_divisor c d

  gcd_cross : b * h ≡ g * d
  gcd_cross =
      Nat.dvd_antisymm (gcd_cross_dvd a b c d same)
        (rw (Nat.mul_comm b h, Nat.mul_comm g d) (gcd_cross_dvd c d a b (sym same)))

  product_pos : 0 < g * h
  product_pos = Nat.mul-pos (gcd_pos a b hb) (gcd_pos c d hd)

  pub lowest_den : b / g ≡ d / h
  lowest_den = Nat.eq_of_mul-eq-mul_right (g * h) product_pos _ _ (
      b / g * (g * h)
      ≡⟨ sym (Nat.mul_assoc (b / g) g h) ⟩ b / g * g * h
      ≡⟨ ap (λ n. n * h) (den_split a b) ⟩ b * h
      ≡⟨ gcd_cross ⟩ g * d
      ≡⟨ ap (λ n. g * n) (sym (den_split c d)) ⟩ g * (d / h * h)
      ≡⟨ Nat.mul_left_comm g (d / h) h ⟩ d / h * (g * h) ∎)

  scaled : (x y : ℕ) → x * (y * (g * h)) ≡ x * g * (y * h)
  scaled x y = sym (Nat.mul_assoc x y (g * h)) ∙ Nat.mul-mul-mul_comm x y g h

  lowest_den_pos : 0 < d / h
  lowest_den_pos = Nat.pos_of_dvd_of_pos (Nat.dvd-mul_right (d / h) h) (rw (den_split c d) hd)

  pub lowest_num : a / g ≡ c / h
  lowest_num =
      Nat.eq_of_mul-eq-mul_right (d / h * (g * h)) (Nat.mul-pos lowest_den_pos product_pos) _ _ (
        a / g * (d / h * (g * h))
        ≡⟨ scaled (a / g) (d / h) ⟩ a / g * g * (d / h * h)
        ≡⟨ ap₂ ◌*◌ (num_split a b) (den_split c d) ⟩ a * d
        ≡⟨ same ⟩ c * b
        ≡⟨ ap₂ ◌*◌ (sym (num_split c d)) (sym (den_split a b)) ⟩ c / h * h * (b / g * g)
        ≡⟨ ap (λ n. c / h * h * (n * g)) lowest_den ⟩ c / h * h * (d / h * g)
        ≡⟨ Nat.mul-mul-mul_comm (c / h) h (d / h) g ⟩ c / h * (d / h) * (h * g)
        ≡⟨ ap (λ n. c / h * (d / h) * n) (Nat.mul_comm h g) ⟩ c / h * (d / h) * (g * h)
        ≡⟨ Nat.mul_assoc (c / h) (d / h) (g * h) ⟩ c / h * (d / h * (g * h)) ∎)
