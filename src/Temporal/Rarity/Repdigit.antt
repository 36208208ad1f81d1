-- ===== src/Temporal/Rarity/Repdigit.antt =====
-- Classification by value: a rarity names the stride and the offset at which its flips repeat.
use native.Mathlib.Nat.{
  pow-zero, pow-succ', div-div-eq-div-mul, mod-eq_of_lt, div-one, add-mod_right, sub-zero,
}
use fractonica.Common.{
  ℕ, zero, suc, ◌+◌, ◌-◌, ◌*◌, ◌/◌, ◌%◌, ◌^◌, ◌≤◌, ◌<◌, ◌≡◌, ◌≢◌, refl, sym, ap, subst₂, ◌∙◌, ◌==◌,
  if◌then◌else◌, some, false, arith, ℕ_discrete,
}
use fractonica.Common.Pow.{eight_pow_pos}
use fractonica.Temporal.Power.{octal_power_u128_lem}
use fractonica.Temporal.Address.{OctalAddress}
use fractonica.Temporal.Address.RoundTrip.{IsAddress}
use fractonica.Temporal.Rarity.{
  RarityFamily, common, triplex, duplex, simplex, nihil, wildcard_prefix, Rarity, omega_nihil,
  rarity_from_suffix, suffix_loop, adjusted, classify_rarity, repdigit_stride, repdigit_offset,
}
use fractonica.Temporal.Rarity.Longest.{
  ones, seven_ones, ones-eq, low_digits, Longest, suffix_loop-Longest,
}

-- The address before a flip, and any other address itself. Zero is preceded by the last address.
unfoldable pub preceding : OctalAddress → ℕ
preceding a = if a.value % 8 == 0 then (a.value + 8 ^ a.digits - 1) % 8 ^ a.digits else a.value

-- The rarity of a family with the given number of wildcard digits: its stride and its offset are
-- defined, the address lies at the offset, and the digit above the repeated ones is another one.
abbrev pub Flips : ℕ → ℕ → ℕ → RarityFamily → ℕ → Type 0
Flips x n wildcard family digit =
    (1 ≤ digit)
    × (digit ≤ 7)
    × (stride : ℕ) × (offset : ℕ) × (repdigit_stride family n ≡ some stride)
    × (repdigit_offset family digit n ≡ some offset)
    × (x % stride ≡ offset)
    × (wildcard ≢ 0 → x / stride % 8 ≢ digit)

-- What a classification says of the address x of n digits.
abbrev pub Classifies : ℕ → ℕ → RarityFamily → ℕ → Type 0
Classifies x n common digit =
    (digit ≡ 0) × (4 ≤ n) × ((e : ℕ) → e ≤ 7 → x % 8 ^ (n - 3) ≢ e * ones (n - 3))
Classifies x n triplex digit = Flips x n 3 triplex digit
Classifies x n duplex digit = Flips x n 2 duplex digit
Classifies x n simplex digit = Flips x n 1 simplex digit
Classifies x n nihil digit = Flips x n 0 nihil digit

stride_lem :
    (w n : ℕ) (f : RarityFamily)
    → wildcard_prefix f ≡ some w
    → w < n
    → n ≤ 21
    → repdigit_stride f n ≡ some (8 ^ (n - w))
unfolding repdigit_stride
stride_lem w n f e h k = ground (arith, octal_power_u128_lem (n - w))

offset_lem :
    (w n d : ℕ) (f : RarityFamily)
    → wildcard_prefix f ≡ some w
    → w < n
    → n ≤ 21
    → 1 ≤ d
    → d ≤ 7
    → repdigit_offset f d n ≡ some (d * ones (n - w))
unfolding repdigit_offset
offset_lem w n d f e h k lo hi = ground (arith, stride_lem w n f e h k, ones-eq (n - w))

Longest-Flips :
    (x n s w d : ℕ) (f : RarityFamily)
    → Longest d n x s
    → wildcard_prefix f ≡ some w
    → s + w ≡ n
    → w < n
    → n ≤ 21
    → 1 ≤ d
    → d ≤ 7
    → Flips x n w f d
Longest-Flips x n s w d f v e sum h k lo hi = (
  lo,
  hi,
  8 ^ s,
  d * ones s,
  stride_lem w n f e h k ∙ ap (λ m. some (8 ^ m)) left,
  offset_lem w n d f e h k lo hi ∙ ap (λ m. some (d * ones m)) left,
  v.repeats,
  λ some_wildcard. v.stops (omega arith),
)
  where
    left : n - w ≡ s
    left = omega arith

-- Every digit of a repeating suffix is the repeated digit.
repeated_places : (j m e x : ℕ) → e ≤ 7 → j < m → x % 8 ^ m ≡ e * ones m → x / 8 ^ j % 8 ≡ e
unfolding ones
repeated_places j zero e x he hj r = absurd (omega arith)
repeated_places zero (suc m) e x he hj r =
    ap (λ q. q % 8) (ap (λ p. x / p) (pow-zero 8) ∙ div-one x) ∙ omega (arith, low_digits m x)
repeated_places (suc j) (suc m) e x he hj r =
    ap (λ q. q % 8) (ap (λ p. x / p) (pow-succ' 8 j) ∙ sym (div-div-eq-div-mul x 8 (8 ^ j)))
    ∙ repeated_places j m e (x / 8) he (omega arith) (omega (arith, low_digits m x))

-- A suffix that stops early leaves no room for a longer one, of whatever digit.
no_longer : (x n s m e : ℕ) → Longest (x % 8) n x s → s < m → m ≤ n → e ≤ 7 → x % 8 ^ m ≢ e * ones m
no_longer x n s m e v h k he r = v.stops (omega arith) (repeated_places s m e x he h r ∙ sym lowest)
  where
    lowest : x % 8 ≡ e
    lowest =
        sym (ap (λ q. q % 8) (ap (λ p. x / p) (pow-zero 8) ∙ div-one x))
        ∙ repeated_places 0 m e x he (omega arith) r

suffix-Classifies :
    (x n s w : ℕ)
    → Longest (x % 8) n x s
    → s + w ≡ n
    → 1 ≤ s
    → n ≤ 21
    → 1 ≤ x % 8
    → Classifies x n (rarity_from_suffix w (x % 8)).family (rarity_from_suffix w (x % 8)).digit
unfolding rarity_from_suffix wildcard_prefix
suffix-Classifies x n s zero v sum hs hn hd =
    Longest-Flips x n s 0 (x % 8) nihil v refl sum (omega arith) hn hd (omega arith)
suffix-Classifies x n s (suc zero) v sum hs hn hd =
    Longest-Flips x n s 1 (x % 8) simplex v refl sum (omega arith) hn hd (omega arith)
suffix-Classifies x n s (suc (suc zero)) v sum hs hn hd =
    Longest-Flips x n s 2 (x % 8) duplex v refl sum (omega arith) hn hd (omega arith)
suffix-Classifies x n s (suc (suc (suc zero))) v sum hs hn hd =
    Longest-Flips x n s 3 (x % 8) triplex v refl sum (omega arith) hn hd (omega arith)
suffix-Classifies x n s (suc (suc (suc (suc w)))) v sum hs hn hd =
    ground
      (arith, λ (e : ℕ) (he : e ≤ 7). no_longer x n s (n - 3) e v (omega arith) (omega arith) he)

preceding_zero : (a : OctalAddress) → IsAddress a → a.value ≡ 0 → preceding a ≡ 7 * ones a.digits
unfolding preceding
preceding_zero a v z =
    rw
      (
        z,
        mod-eq_of_lt {n = 0 + 8 ^ a.digits - 1} {m = 8 ^ a.digits}
            (omega (arith, eight_pow_pos a.digits)),
      )
      (omega (arith, seven_ones a.digits))

preceding_positive : (a : OctalAddress) → IsAddress a → 1 ≤ a.value → preceding a ≡ adjusted a.value
unfolding preceding
preceding_positive a v z = ground (arith, borrow)
  where
    borrow : (a.value + 8 ^ a.digits - 1) % 8 ^ a.digits ≡ a.value - 1
    borrow =
        ap (λ n. n % 8 ^ a.digits) (omega arith)
        ∙ add-mod_right (a.value - 1) (8 ^ a.digits)
        ∙ mod-eq_of_lt (omega (arith, v.in_range))

-- Zero stands for the boundary before which every digit is 7.
zero_classifies : (n : ℕ) → 1 ≤ n → n ≤ 21 → Flips (7 * ones n) n 0 nihil 7
unfolding wildcard_prefix
zero_classifies n h k = (
  omega arith,
  omega arith,
  8 ^ n,
  7 * ones n,
  stride_lem 0 n nihil refl h k ∙ ap (λ m. some (8 ^ m)) (sub-zero n),
  offset_lem 0 n 7 nihil refl h k (omega arith) (omega arith)
      ∙ ap (λ m. some (7 * ones m)) (sub-zero n),
  mod-eq_of_lt (omega (arith, seven_ones n)),
  λ some_wildcard. absurd (some_wildcard refl),
)

classified :
    (a : OctalAddress) (x : ℕ) (r : Rarity)
    → preceding a ≡ x
    → classify_rarity a ≡ r
    → Classifies x a.digits r.family r.digit
    → Classifies (preceding a) a.digits (classify_rarity a).family (classify_rarity a).digit
classified a x r p q = subst₂ (λ y s. Classifies y a.digits s.family s.digit) (sym p) (sym q)

-- The suffix of a nonzero address: at least its last digit, which is not 0.
pub classify_rarity_positive :
    (a : OctalAddress)
    → 1 ≤ a.value
    → classify_rarity a
      ≡ rarity_from_suffix
          (a.digits - suffix_loop (adjusted a.value % 8) a.digits (adjusted a.value))
          (adjusted a.value % 8)
unfolding classify_rarity
classify_rarity_positive a h = rw if_nonzero
  where
    if_nonzero : (a.value == 0) ≡ false
    if_nonzero = ground arith

pub classify_rarity_zero : (a : OctalAddress) → a.value ≡ 0 → classify_rarity a ≡ omega_nihil
unfolding classify_rarity
classify_rarity_zero a h = ground arith

suffix_loop_positive : (n x : ℕ) → 1 ≤ n → 1 ≤ suffix_loop (x % 8) n x
unfolding suffix_loop
suffix_loop_positive zero x h = absurd (omega arith)
suffix_loop_positive (suc n) x h = ground arith

-- A valid address is classified by the address before it: a named rarity has the stride and offset
-- of its family at which that address lies, with a different digit above the repeated ones, and a
-- common one has no repeated digit in all its places below the first three.
pub classify_rarity-Classifies :
    (a : OctalAddress)
    → IsAddress a
    → Classifies (preceding a) a.digits (classify_rarity a).family (classify_rarity a).digit
unfolding classify_rarity
classify_rarity-Classifies a v = elim (ℕ_discrete a.value 0) [
  | yes z ↦
      classified a (7 * ones a.digits) omega_nihil (preceding_zero a v z) (ground arith)
        (zero_classifies a.digits v.some_digits v.few_digits)
  | no nz ↦
      let x = adjusted a.value in
      let s = suffix_loop (x % 8) a.digits x in
      let longest = suffix_loop-Longest (x % 8) a.digits x in
      classified a x (rarity_from_suffix (a.digits - s) (x % 8))
        (preceding_positive a v (omega arith)) (classify_rarity_positive a (omega arith))
        (suffix-Classifies x a.digits s (a.digits - s) longest (omega (arith, longest.within))
          (suffix_loop_positive a.digits x v.some_digits) v.few_digits (ground arith))
]
