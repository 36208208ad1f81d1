-- ===== src/Temporal/Address/Places.antt =====
-- The octal places of a number, most significant first, and what the ASCII loops do with them.
use native.Mathlib.Nat.{
  pow-zero, pow-suc, pow-succ', mod-one, mod-eq_of_lt, div-add-mod', mul_assoc, mul-le-mul_right,
  mod-lt, mul-add-mod_self_right, div-one, div-div-eq-div-mul, lt-div-mul-add,
}
use fractonica.Common.{
  ℕ, zero, suc, ◌+◌, ◌-◌, ◌*◌, ◌/◌, ◌%◌, ◌^◌, ◌≤◌, ◌<◌, ◌≡◌, refl, sym, ap, ap₂, ◌≡⟨◌⟩◌, ◌∎, bit_or,
  not, ◌&&◌, leb, Option, none, some, List, [], ◌∷◌, length, if◌then◌else◌, arith,
}
use fractonica.Common.Result.{ok, err}
use fractonica.Common.Words.{sub_u, shl_u}
use fractonica.Common.Bits.{bit_or_append_digit}
use fractonica.Common.Pow.{eight_pow_pos}
use fractonica.Temporal.Power.{next_power, no_less}
use fractonica.Temporal.{Outcome, invalid_address_digit}
use fractonica.Temporal.Address.{parse_loop}

-- The ASCII bytes of the lowest `count` octal digits of a number.
unfoldable pub places : ℕ → ℕ → List ℕ
places zero value = []
places (suc count) value = (48 + value / 8 ^ count % 8) ∷ places count value

-- The number that octal digits denote, after an accumulated prefix.
unfoldable pub octal_value : ℕ → List ℕ → ℕ
octal_value acc [] = acc
octal_value acc (ascii ∷ rest) = octal_value (acc * 8 + (ascii - 48)) rest

-- The first byte that is not an octal digit.
unfoldable pub first_invalid : List ℕ → Option ℕ
first_invalid [] = none
first_invalid (ascii ∷ rest) =
    if not (leb 48 ascii && leb ascii 55) then some ascii else first_invalid rest

room_for_digit : (n acc : ℕ) → (acc + 1) * 8 ^ suc n ≤ 2 ^ 64 → (acc + 1) * 8 ≤ 2 ^ 64
room_for_digit n acc h = omega (arith, next_power n (acc + 1), no_less n ((acc + 1) * 8))

append_digit :
    (n acc ascii : ℕ)
    → (acc + 1) * 8 ^ suc n ≤ 2 ^ 64
    → 48 ≤ ascii
    → ascii ≤ 55
    → bit_or (shl_u 64 acc 3) (sub_u 8 ascii 48) ≡ acc * 8 + (ascii - 48)
append_digit n acc ascii h lo hi =
    rw (shifted, digit) (bit_or_append_digit acc (ascii - 48) (omega arith))
  where
    shifted : shl_u 64 acc 3 ≡ acc * 8
    shifted = mod-eq_of_lt {n = acc * 2 ^ 3} {m = 2 ^ 64} (omega (arith, room_for_digit n acc h))

    digit : sub_u 8 ascii 48 ≡ ascii - 48
    digit = omega arith

room_after :
    (n acc d : ℕ) → (acc + 1) * 8 ^ suc n ≤ 2 ^ 64 → d < 8 → (acc * 8 + d + 1) * 8 ^ n ≤ 2 ^ 64
room_after n acc d h hd = omega (
  arith,
  next_power n (acc + 1),
  mul-le-mul_right {m = acc * 8 + d + 1} {n = (acc + 1) * 8} (8 ^ n) (omega arith),
)

-- What the parsing loop returns: the number that the digits denote, or the first byte that is none.
abbrev pub Parsed : List ℕ → ℕ → Option ℕ → Outcome ℕ
Parsed digits acc none = ok (octal_value acc digits)
Parsed digits acc (some ascii) = err (invalid_address_digit ascii)

pub parse_loop_lem :
    (digits : List ℕ) (acc : ℕ)
    → (acc + 1) * 8 ^ length digits ≤ 2 ^ 64
    → parse_loop digits acc ≡ Parsed digits acc (first_invalid digits)
unfolding parse_loop octal_value first_invalid
parse_loop_lem [] acc h = refl
parse_loop_lem (ascii ∷ rest) acc h = ground (
  arith,
  append_digit (length rest) acc ascii h,
  room_after (length rest) acc (ascii - 48) h,
  parse_loop_lem rest (acc * 8 + (ascii - 48)),
)

pub length-places : (count value : ℕ) → length (places count value) ≡ count
unfolding places
length-places zero value = refl
length-places (suc count) value = ap suc (length-places count value)

pub first_invalid-places : (count value : ℕ) → first_invalid (places count value) ≡ none
unfolding first_invalid places
first_invalid-places zero value = refl
first_invalid-places (suc count) value = ground (arith, first_invalid-places count value)

-- The top place of a number, and the places below it.
pub top_place : (n v : ℕ) → v % 8 ^ suc n ≡ v / 8 ^ n % 8 * 8 ^ n + v % 8 ^ n
top_place n v =
    v % 8 ^ suc n
    ≡⟨ ap₂ ◌%◌ whole (pow-succ' 8 n) ⟩
      (v / 8 ^ n / 8 * (8 * 8 ^ n) + (v / 8 ^ n % 8 * 8 ^ n + v % 8 ^ n)) % (8 * 8 ^ n)
    ≡⟨ mul-add-mod_self_right (v / 8 ^ n / 8) (8 * 8 ^ n) _ ⟩
      (v / 8 ^ n % 8 * 8 ^ n + v % 8 ^ n) % (8 * 8 ^ n)
    ≡⟨ mod-eq_of_lt small ⟩ v / 8 ^ n % 8 * 8 ^ n + v % 8 ^ n ∎
  where
    low : v % 8 ^ n < 8 ^ n
    low = mod-lt v (eight_pow_pos n)

    small : v / 8 ^ n % 8 * 8 ^ n + v % 8 ^ n < 8 * 8 ^ n
    small = omega (arith, low, mul-le-mul_right {m = v / 8 ^ n % 8} {n = 7} (8 ^ n) (omega arith))

    whole : v ≡ v / 8 ^ n / 8 * (8 * 8 ^ n) + (v / 8 ^ n % 8 * 8 ^ n + v % 8 ^ n)
    whole = omega (
      arith,
      div-add-mod' v (8 ^ n),
      ap (λ q. q * 8 ^ n) (div-add-mod' (v / 8 ^ n) 8),
      mul_assoc (v / 8 ^ n / 8) 8 (8 ^ n),
    )

-- Reading the places of a number gives its lowest places back.
pub octal_value-places :
    (count acc value : ℕ)
    → octal_value acc (places count value) ≡ acc * 8 ^ count + value % 8 ^ count
unfolding octal_value places
octal_value-places zero acc value = omega (arith, pow-zero 8, mod-one value)
octal_value-places (suc count) acc value = omega (
  arith,
  octal_value-places count (acc * 8 + (48 + value / 8 ^ count % 8 - 48)) value,
  next_power count acc,
  top_place count value,
  ap (λ d. (acc * 8 + d) * 8 ^ count) drop_offset,
)
  where
    drop_offset : 48 + value / 8 ^ count % 8 - 48 ≡ value / 8 ^ count % 8
    drop_offset = omega arith

-- The accumulated prefix stays on top of the digits that follow it.
octal_value-prefix :
    (acc : ℕ) (digits : List ℕ)
    → first_invalid digits ≡ none
    → octal_value acc digits / 8 ^ length digits ≡ acc
unfolding octal_value first_invalid
octal_value-prefix acc [] h = div-one acc
octal_value-prefix acc (ascii ∷ rest) h =
    octal_value (acc * 8 + (ascii - 48)) rest / 8 ^ suc (length rest)
    ≡⟨ ap (λ n. octal_value (acc * 8 + (ascii - 48)) rest / n) (pow-suc 8 (length rest)) ⟩
      octal_value (acc * 8 + (ascii - 48)) rest / (8 ^ length rest * 8)
    ≡⟨ sym (div-div-eq-div-mul _ _ 8) ⟩
      octal_value (acc * 8 + (ascii - 48)) rest / 8 ^ length rest / 8
    ≡⟨ ap (λ n. n / 8) (octal_value-prefix (acc * 8 + (ascii - 48)) rest (ground arith)) ⟩
      (acc * 8 + (ascii - 48)) / 8
    ≡⟨ ground arith ⟩ acc ∎

-- The places of the number that octal digits denote are those digits.
pub places-octal_value :
    (acc : ℕ) (digits : List ℕ)
    → first_invalid digits ≡ none
    → places (length digits) (octal_value acc digits) ≡ digits
unfolding places octal_value first_invalid
places-octal_value acc [] h = refl
places-octal_value acc (ascii ∷ rest) h = ground (
  arith,
  octal_value-prefix (acc * 8 + (ascii - 48)) rest,
  places-octal_value (acc * 8 + (ascii - 48)) rest,
)

pub octal_value-lt :
    (digits : List ℕ) → first_invalid digits ≡ none → octal_value 0 digits < 8 ^ length digits
octal_value-lt digits h = omega (
  arith,
  lt-div-mul-add {a = octal_value 0 digits} (eight_pow_pos (length digits)),
  ap (λ n. n * 8 ^ length digits) (octal_value-prefix 0 digits h),
)
