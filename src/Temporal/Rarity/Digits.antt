-- ===== src/Temporal/Rarity/Digits.antt =====
-- The classifier of digit slices agrees with the classifier of addresses.
use native.Mathlib.Nat.{pow-zero, pow-suc, div-one, div-div-eq-div-mul, mod-eq_of_lt}
use fractonica.Common.{
  ℕ, zero, suc, ◌+◌, ◌-◌, ◌/◌, ◌%◌, ◌^◌, ◌≤◌, ◌<◌, ◌≡◌, ◌≢◌, refl, sym, ap, ap₂, subst, subst₂, ◌∙◌,
  ◌==◌, Bool-cases, inl, inr, Option, none, some, List, length, get_or, arith, dec_lt,
}
use fractonica.Common.Result.{ok}
use fractonica.Temporal.Address.{OctalAddress}
use fractonica.Temporal.Address.RoundTrip.{IsAddress}
use fractonica.Temporal.Rarity.{
  omega_nihil, rarity_from_suffix, suffix_loop, adjusted, classify_rarity, adjusted_digit,
  digits_loop, repeated, decrement_index, classify_rarity_digits,
}
use fractonica.Temporal.Rarity.Repdigit.{classify_rarity_positive, classify_rarity_zero}
use fractonica.Temporal.Rarity.Slices.{
  digit_list, length-digit_list, get_or-digit_list, check_digits-digit_list, LastNonzero,
  last_nonzero-digit_list, all_zero-digit_list, all_zero-zero,
}
use fractonica.Temporal.Rarity.Borrow.{borrow_at, borrow_below, borrow_above}

-- The decrement index of a nonzero address, and the digits that it leads to.
adjusted_digit-some :
    (n v i j : ℕ) (l : LastNonzero n v)
    → i + suc j ≡ n
    → adjusted_digit (digit_list n v) (some l.place) i ≡ (v - 1) / 8 ^ j % 8
unfolding adjusted_digit
adjusted_digit-some n v i j l e =
    let read = get_or-digit_list n v i j e in
    elim (dec_lt j l.above) [
      | yes below ↦
          let seven =
            borrow_below v l.above l.zeros l.nonzero (l.above - j - 1) j (omega (arith, below)) in
          ground (arith, seven, l.where_is)
      | no h ↦ elim (dec_lt l.above j) [
        | yes above ↦
            let same =
              ap (λ n. n % 8)
                (borrow_above v l.above l.zeros l.nonzero (j - l.above - 1) j
                  (omega (arith, above))) in
            ground (arith, read, same, l.where_is)
        | no h' ↦
            let here : l.above ≡ j = omega arith in
            let less =
              subst (λ k. (v - 1) / 8 ^ k % 8 ≡ v / 8 ^ k % 8 - 1) here
                (borrow_at v l.above l.zeros l.nonzero) in
            ground (arith, read, less, l.where_is)
      ]
    ]

-- The digits from the last one up, and the value from its lowest digit up, repeat alike.
digits_loop-suffix_loop :
    (digits : List ℕ) (dec : Option ℕ) (n d x : ℕ)
    → ((i j : ℕ) → i + suc j ≡ n → adjusted_digit digits dec i ≡ x / 8 ^ j % 8)
    → (count j : ℕ) → count + j ≡ n
    → digits_loop digits dec d count ≡ suffix_loop d count (x / 8 ^ j)
unfolding digits_loop suffix_loop
digits_loop-suffix_loop digits dec n d x h zero j e = refl
digits_loop-suffix_loop digits dec n d x h (suc count) j e = rw (
  h count j (omega arith),
  next,
  digits_loop-suffix_loop digits dec n d x h count (suc j) (omega arith),
)
  where
    next : x / 8 ^ j / 8 ≡ x / 8 ^ suc j
    next = div-div-eq-div-mul x (8 ^ j) 8 ∙ ap (λ p. x / p) (sym (pow-suc 8 j))

-- Both loops, started at the whole address.
digits_loop_whole :
    (digits : List ℕ) (dec : Option ℕ) (n d x : ℕ)
    → ((i j : ℕ) → i + suc j ≡ n → adjusted_digit digits dec i ≡ x / 8 ^ j % 8)
    → digits_loop digits dec d n ≡ suffix_loop d n x
digits_loop_whole digits dec n d x h =
    digits_loop-suffix_loop digits dec n d x h n 0 (omega arith)
    ∙ ap (suffix_loop d n) (ap (λ p. x / p) (pow-zero 8) ∙ div-one x)

-- What the classifier of slices does past its checks.
past_checks :
    (n v x : ℕ) (dec : Option ℕ)
    → v % 8 ^ suc n ≢ 0
    → decrement_index (digit_list (suc n) v) ≡ dec
    → repeated (digit_list (suc n) v) dec ≡ x % 8
    → ((i j : ℕ) → i + suc j ≡ suc n → adjusted_digit (digit_list (suc n) v) dec i ≡ x / 8 ^ j % 8)
    → classify_rarity_digits (digit_list (suc n) v)
      ≡ ok (rarity_from_suffix (suc n - suffix_loop (x % 8) (suc n) x) (x % 8))
unfolding classify_rarity_digits digit_list
past_checks n v x dec nz dec_is rep_is places = rw (
  check_digits-digit_list (suc n) v,
  all_zero-digit_list (suc n) v nz,
  dec_is,
  rep_is,
  length-digit_list n v,
  digits_loop_whole (digit_list (suc n) v) dec (suc n) (x % 8) x places,
)

last_digit : (n v : ℕ) → get_or (digit_list (suc n) v) (length (digit_list (suc n) v) - 1) 0 ≡ v % 8
last_digit n v =
    get_or-digit_list (suc n) v _ 0 (omega (arith, length-digit_list (suc n) v))
    ∙ ap (λ q. q % 8) (ap (λ p. v / p) (pow-zero 8) ∙ div-one v)

-- A nonzero address of n + 1 digits, with and without a borrow.
ends_in_digit :
    (n v : ℕ)
    → v % 8 ^ suc n ≢ 0
    → v % 8 ≢ 0
    → classify_rarity_digits (digit_list (suc n) v)
      ≡ ok (rarity_from_suffix (suc n - suffix_loop (v % 8) (suc n) v) (v % 8))
unfolding adjusted_digit
ends_in_digit n v nz last =
    past_checks n v v none nz (ground (arith, last_digit n v)) (last_digit n v)
      (get_or-digit_list (suc n) v)

ends_in_zero :
    (n v : ℕ)
    → v % 8 ^ suc n ≢ 0
    → 1 ≤ v
    → v % 8 ≡ 0
    → classify_rarity_digits (digit_list (suc n) v)
      ≡ ok (rarity_from_suffix (suc n - suffix_loop ((v - 1) % 8) (suc n) (v - 1)) ((v - 1) % 8))
ends_in_zero n v nz pos last = elim (last_nonzero-digit_list (suc n) v) [
  | inl (z, _) ↦ absurd (nz z)
  | inr l ↦
      past_checks n v (v - 1) (some l.place) nz (ground (arith, last_digit n v, l.found))
        (omega arith) (λ i j. adjusted_digit-some (suc n) v i j l)
]

classify_nonzero :
    (n v : ℕ)
    → v < 8 ^ suc n
    → 1 ≤ v
    → classify_rarity_digits (digit_list (suc n) v)
      ≡ ok (
          rarity_from_suffix
            (suc n - suffix_loop (adjusted v % 8) (suc n) (adjusted v))
            (adjusted v % 8))
classify_nonzero n v h pos =
    let nz : v % 8 ^ suc n ≢ 0 = omega (arith, mod-eq_of_lt h) in
    elim (Bool-cases (v % 8 == 0)) [
      | inl last ↦ rw last (ends_in_zero n v nz pos (ground arith))
      | inr last ↦ rw last (ends_in_digit n v nz (ground arith))
    ]

classify_zero : (n : ℕ) → classify_rarity_digits (digit_list (suc n) 0) ≡ ok omega_nihil
unfolding classify_rarity_digits digit_list
classify_zero n = rw (check_digits-digit_list (suc n) 0, all_zero-zero (suc n))

-- On the digits of a valid address, the classifier of digit slices returns the rarity that the
-- classifier of addresses gives.
pub classify_rarity_digits-digit_list :
    (a : OctalAddress)
    → IsAddress a
    → classify_rarity_digits (digit_list a.digits a.value) ≡ ok (classify_rarity a)
classify_rarity_digits-digit_list a v = by_length a.digits a.value refl refl
  where
    by_length :
        (n x : ℕ)
        → a.digits ≡ n
        → a.value ≡ x
        → classify_rarity_digits (digit_list n x) ≡ ok (classify_rarity a)
    by_length zero x e p = absurd (omega (arith, v.some_digits))
    by_length (suc n) zero e p = classify_zero n ∙ ap ok (sym (classify_rarity_zero a p))
    by_length (suc n) (suc x) e p =
        classify_nonzero n (suc x) (subst₂ (λ d w. w < 8 ^ d) e p v.in_range) (omega arith)
        ∙ ap ok (
            sym (
              classify_rarity_positive a (omega arith)
              ∙ ap₂
                  (λ d w.
                    rarity_from_suffix (d - suffix_loop (adjusted w % 8) d (adjusted w))
                      (adjusted w % 8))
                  e p))
