-- ===== src/Temporal/Word.antt =====
-- `PhaseWord64`: the high 64 bits of a phase. Shifts are `u8`, and indices of digits `usize`.
pub mod Agrees
use fractonica.Common.{
  ℕ, zero, suc, ◌+◌, ◌*◌, ◌/◌, ◌%◌, ◌^◌, Bool, ◌&&◌, bit_and, ltb, leb, ◌==◌, Option, none, some,
  List, [], ◌∷◌, length, if◌then◌else◌, unwrap_or,
}
use fractonica.Common.Result.{ok, err}
use fractonica.Common.Words.{add_u, sub_u, shl_u, shr}
use fractonica.Temporal.{
  bits_per_octal_digit, phase_word_bits, phase_word_octal_digits, invalid_address_length, Outcome,
}
use fractonica.Temporal.BitPrecision.{BitPrecision}
use fractonica.Temporal.Ascii.{write_places}
use fractonica.Temporal.Phase.{PhaseRatio, bits, take_bits}
use fractonica.Temporal.Projection.{PhaseProjection}

pub record PhaseWord64 : Type 0 where
  pub raw : ℕ

-- `PhaseWord64::from_ratio`, which `PhaseRatio::word64` calls.
unfoldable pub from_ratio : PhaseRatio → PhaseWord64
from_ratio phase = record { raw = (take_bits phase_word_bits 0 (bits phase)).0 }

unfoldable pub bit_msb : PhaseWord64 → ℕ → Option ℕ
bit_msb word index =
    if leb phase_word_bits index
    then none
    else some (bit_and (shr word.raw (sub_u 8 (sub_u 8 phase_word_bits index) 1)) 1)

unfoldable pub project : PhaseWord64 → BitPrecision → PhaseProjection
project word b = record { precision = b; prefix = shr word.raw (sub_u 8 phase_word_bits b.get) }

unfoldable pub octal_digit_msb : PhaseWord64 → ℕ → Option ℕ
octal_digit_msb word index =
    let consumed_bits = (index + 1) * bits_per_octal_digit % 2 ^ 8 in
    if leb phase_word_octal_digits index
    then none
    else some (bit_and (shr word.raw (sub_u 8 phase_word_bits consumed_bits)) 7)

unfoldable pub write_octal_ascii : PhaseWord64 → List ℕ → Outcome (List ℕ)
write_octal_ascii word output =
    if ltb phase_word_octal_digits (length output)
    then err (invalid_address_length (length output))
    else ok (write_places (octal_digit_msb word) 0 (length output) output)
