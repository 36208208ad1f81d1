-- ===== src/Temporal/Rarity/Slices.antt =====
-- The digits of an address as a slice, and its last digit that is not 0.
use native.Mathlib.Nat.{pow-zero, mod-one, zero-div}
use fractonica.Common.{
  ℕ, zero, suc, ◌+◌, ◌*◌, ◌/◌, ◌%◌, ◌^◌, ◌≡◌, ◌≢◌, ◌⊎◌, refl, ap, true, false, inl, inr, none, some,
  List, [], ◌∷◌, length, get_or, arith, ℕ_discrete,
}
use fractonica.Common.Result.{ok}
use fractonica.Temporal.Address.Places.{top_place}
use fractonica.Temporal.Rarity.{check_digits, all_zero, last_nonzero}

-- The lowest n octal digits of a number, most significant first.
unfoldable pub digit_list : ℕ → ℕ → List ℕ
digit_list zero v = []
digit_list (suc n) v = (v / 8 ^ n % 8) ∷ digit_list n v

pub length-digit_list : (n v : ℕ) → length (digit_list n v) ≡ n
unfolding digit_list
length-digit_list zero v = refl
length-digit_list (suc n) v = ap suc (length-digit_list n v)

pub get_or-digit_list : (n v i j : ℕ) → i + suc j ≡ n → get_or (digit_list n v) i 0 ≡ v / 8 ^ j % 8
unfolding digit_list
get_or-digit_list zero v i j e = absurd (omega arith)
get_or-digit_list (suc n) v zero j e = ap (λ m. v / 8 ^ m % 8) (omega arith)
get_or-digit_list (suc n) v (suc i) j e = get_or-digit_list n v i j (omega arith)

pub check_digits-digit_list : (n v : ℕ) → check_digits (digit_list n v) ≡ ok tt
unfolding check_digits digit_list
check_digits-digit_list zero v = refl
check_digits-digit_list (suc n) v = ground (arith, check_digits-digit_list n v)

-- The last place that is not 0, and what makes it the last.
pub record LastNonzero (n v : ℕ) : Type 0 where
  pub place : ℕ
  pub above : ℕ
  pub found : last_nonzero (digit_list n v) ≡ some place
  pub where_is : place + suc above ≡ n
  pub nonzero : v / 8 ^ above % 8 ≢ 0
  pub zeros : v % 8 ^ above ≡ 0

pub last_nonzero-digit_list :
    (n v : ℕ) → ((v % 8 ^ n ≡ 0) × (last_nonzero (digit_list n v) ≡ none)) ⊎ LastNonzero n v
unfolding last_nonzero digit_list
last_nonzero-digit_list zero v = inl (omega (arith, pow-zero 8, mod-one v), refl)
last_nonzero-digit_list (suc n) v = elim (last_nonzero-digit_list n v) [
  | inr l ↦ inr (record {
    place = suc l.place;
    above = l.above;
    found = ground (arith, l.found);
    where_is = omega (arith, l.where_is);
    nonzero = l.nonzero;
    zeros = l.zeros;
  })
  | inl (z, e) ↦ elim (ℕ_discrete (v / 8 ^ n % 8) 0) [
    | yes top ↦ inl (omega (arith, top_place n v, ap (λ d. d * 8 ^ n) top), ground (arith, e))
    | no top ↦ inr (record {
      place = 0;
      above = n;
      found = ground (arith, e);
      where_is = omega arith;
      nonzero = top;
      zeros = z;
    })
  ]
]

pub all_zero-digit_list : (n v : ℕ) → v % 8 ^ n ≢ 0 → all_zero (digit_list n v) ≡ false
unfolding all_zero digit_list
all_zero-digit_list zero v h = absurd (h (omega (arith, pow-zero 8, mod-one v)))
all_zero-digit_list (suc n) v h = elim (ℕ_discrete (v / 8 ^ n % 8) 0) [
  | no top ↦ ground arith
  | yes top ↦ ground (
    arith,
    all_zero-digit_list n v (λ z. h (omega (arith, top_place n v, ap (λ d. d * 8 ^ n) top))),
  )
]

pub all_zero-zero : (n : ℕ) → all_zero (digit_list n 0) ≡ true
unfolding all_zero digit_list
all_zero-zero zero = refl
all_zero-zero (suc n) = ground (arith, zero-div (8 ^ n), all_zero-zero n)
