-- ===== src/Temporal/Rarity.antt =====
-- `RarityFamily`, `Rarity` and the two classifiers of octal addresses, by value and by digits.
pub mod Longest
pub mod Repdigit
pub mod Slices
pub mod Borrow
pub mod Digits
use fractonica.Common.{
  ℕ, zero, suc, ◌+◌, ◌-◌, ◌*◌, ◌/◌, ◌%◌, Bool, true, false, ◌&&◌, ltb, leb, ◌==◌, Option, none,
  some, List, [], ◌∷◌, length, get_or, if◌then◌else◌,
}
use fractonica.Common.Result.{ok, err, ◌>>=◌, ◌>>◌}
use fractonica.Temporal.{radix, invalid_address_length, invalid_address_digit, Outcome}
use fractonica.Temporal.Power.{octal_power_u128}
use fractonica.Temporal.Address.{OctalAddress}

pub data RarityFamily : Type 0 where
  common triplex duplex simplex nihil : RarityFamily

unfoldable pub wildcard_prefix : RarityFamily → Option ℕ
wildcard_prefix common = none
wildcard_prefix triplex = some 3
wildcard_prefix duplex = some 2
wildcard_prefix simplex = some 1
wildcard_prefix nihil = some 0

pub record Rarity : Type 0 where
  pub family : RarityFamily
  pub digit : ℕ

abbrev pub omega_nihil : Rarity
omega_nihil = record { family = nihil; digit = 7 }

abbrev pub family_of : ℕ → RarityFamily
family_of wildcard =
    if wildcard == 3
    then triplex
    else if wildcard == 2
    then duplex
    else if wildcard == 1
    then simplex
    else if wildcard == 0
    then nihil
    else common

abbrev pub is_common : RarityFamily → Bool
is_common common = true
is_common triplex = false
is_common duplex = false
is_common simplex = false
is_common nihil = false

unfoldable pub rarity_from_suffix : ℕ → ℕ → Rarity
rarity_from_suffix wildcard repeated_digit =
    let family = family_of wildcard in
    record { family = family; digit = if is_common family then 0 else repeated_digit }

-- `while suffix_length < digits && remaining % RADIX == repeated_digit`, with `left` digits to go; the
-- length that it adds.
unfoldable pub suffix_loop : ℕ → ℕ → ℕ → ℕ
suffix_loop repeated_digit zero remaining = 0
suffix_loop repeated_digit (suc left) remaining =
    let more = suffix_loop repeated_digit left (remaining / radix) in
    if remaining % radix == repeated_digit then suc more else 0

-- The address that a value is classified as: a flip counts as the address before it.
abbrev pub adjusted : ℕ → ℕ
adjusted value = if value % radix == 0 then value - 1 else value

unfoldable pub classify_rarity : OctalAddress → Rarity
unfolding suffix_loop rarity_from_suffix
classify_rarity a =
    if a.value == 0
    then omega_nihil
    else let repeated_digit = adjusted a.value % radix in
      rarity_from_suffix (a.digits - suffix_loop repeated_digit a.digits (adjusted a.value))
        repeated_digit

-- The two checks of `classify_rarity_digits` over all the digits.
unfoldable pub check_digits : List ℕ → Outcome (Unit {0})
check_digits [] = ok tt
check_digits (digit ∷ rest) =
    let more = check_digits rest in
    if leb radix digit then err (invalid_address_digit digit) else more

unfoldable pub all_zero : List ℕ → Bool
all_zero [] = true
all_zero (digit ∷ rest) = (digit == 0) && all_zero rest

-- `digits.iter().rposition(|digit| *digit != 0)`
unfoldable pub last_nonzero : List ℕ → Option ℕ
last_nonzero [] = none
last_nonzero (digit ∷ rest) = elim (last_nonzero rest) [
  | some index ↦ some (suc index)
  | none ↦ if digit == 0 then none else some 0
]

-- The digit at a place once the borrow of a trailing zero is carried through.
unfoldable pub adjusted_digit : List ℕ → Option ℕ → ℕ → ℕ
adjusted_digit digits none index = get_or digits index 0
adjusted_digit digits (some decrement) index =
    if ltb decrement index
    then 7
    else if index == decrement
    then get_or digits index 0 - 1
    else get_or digits index 0

-- `for index in (0..digits.len()).rev()`, with `count` indices to go; the suffix length it adds.
unfoldable pub digits_loop : List ℕ → Option ℕ → ℕ → ℕ → ℕ
digits_loop digits decrement repeated_digit zero = 0
digits_loop digits decrement repeated_digit (suc index) =
    let more = digits_loop digits decrement repeated_digit index in
    if adjusted_digit digits decrement index == repeated_digit then suc more else 0

abbrev pub repeated : List ℕ → Option ℕ → ℕ
repeated digits (some _) = 7
repeated digits none = get_or digits (length digits - 1) 0

abbrev pub decrement_index : List ℕ → Option ℕ
decrement_index digits =
    if get_or digits (length digits - 1) 0 == 0 then last_nonzero digits else none

unfoldable pub classify_rarity_digits : List ℕ → Outcome Rarity
classify_rarity_digits [] = err (invalid_address_length 0)
classify_rarity_digits (first ∷ rest) =
    let digits = first ∷ rest in
    let decrement = decrement_index digits in
    let repeated_digit = repeated digits decrement in
    check_digits digits
    >> (if all_zero digits
        then ok omega_nihil
        else ok (
            rarity_from_suffix
              (length digits - digits_loop digits decrement repeated_digit (length digits))
              repeated_digit))

unfoldable pub repdigit_stride : RarityFamily → ℕ → Option ℕ
unfolding wildcard_prefix
repdigit_stride family digits = elim (wildcard_prefix family) [
  | none ↦ none
  | some prefix ↦ if leb digits prefix then none else octal_power_u128 (digits - prefix)
]

unfoldable pub repdigit_offset : RarityFamily → ℕ → ℕ → Option ℕ
unfolding repdigit_stride
repdigit_offset family digit digits =
    if leb 1 digit && leb digit 7
    then elim (repdigit_stride family digits) [
      | none ↦ none
      | some stride ↦ some (digit * ((stride - 1) / 7))
    ]
    else none
