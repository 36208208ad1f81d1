-- ===== src/Temporal/Address/RoundTrip.antt =====
-- Printing an address and parsing it are inverse to one another.
use native.Mathlib.Nat.{mod-eq_of_lt, pow-le-pow_right}
use fractonica.Common.{
  append-nil, ℕ, zero, suc, ◌+◌, ◌*◌, ◌/◌, ◌%◌, ◌^◌, ◌≤◌, ◌<◌, ◌≡◌, refl, sym, ap, ap₂, ◌∙◌, ◌||◌,
  ◌==◌, bit_and, ltb, leb, Option-cases, inl, inr, Option, none, some, List, [], ◌∷◌, ◌++◌, length,
  drop, drop_all, if◌then◌else◌, unwrap_or, arith,
}
use fractonica.Common.Result.{ok, err, ◌>>=◌}
use fractonica.Common.Words.{add_u, sub_u, mul_u, shr}
use fractonica.Common.Bits.{bit_and_seven}
use fractonica.Common.Pow.{eight_pow}
use fractonica.Temporal.{
  Outcome, invalid_address_length, invalid_address_digit, address_out_of_range,
}
use fractonica.Temporal.Power.{octal_power_u64_lem}
use fractonica.Temporal.Ascii.{write_places}
use fractonica.Temporal.Address.{
  OctalAddress, new, parse_loop, from_octal_ascii, digit_msb, write_ascii,
}
use fractonica.Temporal.Address.Places.{
  places, octal_value, first_invalid, Parsed, parse_loop_lem, length-places, first_invalid-places,
  octal_value-places, places-octal_value, octal_value-lt,
}

-- What `OctalAddress::new` establishes.
pub record IsAddress (a : OctalAddress) : Type 0 where
  pub some_digits : 1 ≤ a.digits
  pub few_digits : a.digits ≤ 21
  pub in_range : a.value < 8 ^ a.digits

-- `new` on every input: a length of 1 to 21, then a value that fits that many digits.
new_lem :
    (value digits : ℕ)
    → new value digits ≡ (
        if (digits == 0) || ltb 21 digits
        then err (invalid_address_length digits)
        else if leb (8 ^ digits) value
        then err address_out_of_range
        else ok (record { value = value; digits = digits }))
unfolding new
new_lem value digits = rw (octal_power_u64_lem digits) (ground arith)

module _ (a : OctalAddress) (v : IsAddress a) where
  digit_msb_lem :
      (index left : ℕ)
      → index + suc left ≡ a.digits
      → digit_msb a (index % 2 ^ 8) ≡ some (a.value / 8 ^ left % 8)
  unfolding digit_msb
  digit_msb_lem index left e = ground (arith, digit)
    where
      shift : mul_u 8 (sub_u 8 (sub_u 8 a.digits (index % 2 ^ 8)) 1) 3 ≡ 3 * left
      shift = omega (arith, v.few_digits)

      digit :
          bit_and (shr a.value (mul_u 8 (sub_u 8 (sub_u 8 a.digits (index % 2 ^ 8)) 1) 3)) 7
          ≡ a.value / 8 ^ left % 8
      digit =
          bit_and_seven _
          ∙ ap (λ k. a.value / 2 ^ k % 8) shift
          ∙ ap (λ n. a.value / n % 8) (sym (eight_pow left))

  write_places_lem :
      (index count : ℕ) (output : List ℕ)
      → index + count ≡ a.digits
      → count ≤ length output
      → write_places (λ i. digit_msb a (i % 2 ^ 8)) index count output
        ≡ places count a.value ++ drop count output
  unfolding write_places places
  write_places_lem index zero output e h = refl
  write_places_lem index (suc count) [] e h = absurd (omega arith)
  write_places_lem index (suc count) (x ∷ output) e h =
      ap₂ ◌∷◌ (ap (λ d. add_u 8 48 (unwrap_or d 0)) (digit_msb_lem index count e) ∙ omega arith)
        (write_places_lem (index + 1) count output (omega arith) (omega arith))

  -- Writing an address fills its places with ASCII digits and leaves the rest of the output.
  write_ascii_lem :
      (output : List ℕ)
      → a.digits ≤ length output
      → write_ascii a output ≡ ok (places a.digits a.value ++ drop a.digits output)
  unfolding write_ascii
  write_ascii_lem output h = ground (arith, write_places_lem 0 a.digits output)

-- What `from_octal_ascii` makes of the digits: a length, then the first bad byte, then the value.
abbrev pub Read : List ℕ → Option ℕ → Outcome OctalAddress
Read digits none = ok (record { value = octal_value 0 digits; digits = length digits })
Read digits (some ascii) = err (invalid_address_digit ascii)

new-octal_value :
    (digits : List ℕ)
    → length digits < 22
    → 0 < length digits
    → first_invalid digits ≡ none
    → new (octal_value 0 digits) (length digits % 2 ^ 8) ≡ Read digits none
new-octal_value digits short some_digits valid =
    ap (new (octal_value 0 digits)) (mod-eq_of_lt (omega arith))
    ∙ new_lem (octal_value 0 digits) (length digits)
    ∙ ground (arith, octal_value-lt digits valid)

read_digits :
    (digits : List ℕ)
    → length digits < 22
    → 0 < length digits
    → (parse_loop digits 0 >>= λ value. new value (length digits % 2 ^ 8))
      ≡ Read digits (first_invalid digits)
read_digits digits short some_digits = elim (Option-cases (first_invalid digits)) [
  | inl valid ↦ rw (parsed, valid) (new-octal_value digits short some_digits valid)
  | inr (ascii, bad) ↦ rw (parsed, bad)
]
  where
    parsed : parse_loop digits 0 ≡ Parsed digits 0 (first_invalid digits)
    parsed = parse_loop_lem digits 0 (
        omega (
          arith,
          pow-le-pow_right {n = 8} (omega arith) {i = length digits} {j = 21} (omega arith),
        ))

-- from_octal_ascii refuses a length of 0 or above 21, then the first byte that is no octal digit,
-- and otherwise returns the address of the value that the digits denote.
pub from_octal_ascii_lem :
    (digits : List ℕ)
    → from_octal_ascii digits ≡ (
        if (length digits == 0) || ltb 21 (length digits)
        then err (invalid_address_length (length digits))
        else Read digits (first_invalid digits))
unfolding from_octal_ascii
from_octal_ascii_lem digits = ground (arith, read_digits digits)

filled :
    (a : OctalAddress) (output : List ℕ)
    → length output ≡ a.digits
    → places a.digits a.value ++ drop a.digits output ≡ places a.digits a.value
filled a output e =
    ap (λ rest. places a.digits a.value ++ rest) (drop_all a.digits output e)
    ∙ append-nil (places a.digits a.value)

read_places : (a : OctalAddress) → IsAddress a → from_octal_ascii (places a.digits a.value) ≡ ok a
read_places a v =
    from_octal_ascii_lem (places a.digits a.value)
    ∙ ground
        (arith, length-places a.digits a.value, first_invalid-places a.digits a.value, value_back)
  where
    value_back : octal_value 0 (places a.digits a.value) ≡ a.value
    value_back = octal_value-places a.digits 0 a.value ∙ omega (arith, mod-eq_of_lt v.in_range)

-- Parsing what a valid address wrote into an output of its length gives the address back.
pub from_octal_ascii-write_ascii :
    (a : OctalAddress) (output : List ℕ)
    → IsAddress a
    → length output ≡ a.digits
    → (write_ascii a output >>= from_octal_ascii) ≡ ok a
from_octal_ascii-write_ascii a output v e =
    rw (write_ascii_lem a v output (omega arith), filled a output e) (read_places a v)

-- What a successful parse says of its input.
record Parses (digits : List ℕ) (a : OctalAddress) : Type 0 where
  some_digits : 1 ≤ length digits
  few_digits : length digits ≤ 21
  valid : first_invalid digits ≡ none
  value_is : a.value ≡ octal_value 0 digits
  digits_are : a.digits ≡ length digits

from_octal_ascii-Parses :
    (digits : List ℕ) (a : OctalAddress) → from_octal_ascii digits ≡ ok a → Parses digits a
from_octal_ascii-Parses digits a e = ground (arith, from_octal_ascii_lem digits)

Parses-IsAddress : (digits : List ℕ) (a : OctalAddress) → Parses digits a → IsAddress a
Parses-IsAddress digits a p = record {
  some_digits = omega (arith, p.some_digits, p.digits_are);
  few_digits = omega (arith, p.few_digits, p.digits_are);
  in_range = rw (p.value_is, p.digits_are) (octal_value-lt digits p.valid);
}

-- What parses as an octal address is a valid address of the same length, and is written back as it
-- was into any output of that length.
pub write_ascii-from_octal_ascii :
    (digits output : List ℕ) (a : OctalAddress)
    → from_octal_ascii digits ≡ ok a
    → length output ≡ length digits
    → IsAddress a × (a.digits ≡ length digits) × (write_ascii a output ≡ ok digits)
write_ascii-from_octal_ascii digits output a e h = (valid, p.digits_are, written)
  where
    p : Parses digits a
    p = from_octal_ascii-Parses digits a e

    valid : IsAddress a
    valid = Parses-IsAddress digits a p

    fits : length output ≡ a.digits
    fits = omega (arith, h, p.digits_are)

    written : write_ascii a output ≡ ok digits
    written =
        write_ascii_lem a valid output (omega (arith, fits))
        ∙ ap ok (
            filled a output fits
            ∙ ap₂ places p.digits_are p.value_is
            ∙ places-octal_value 0 digits p.valid)
