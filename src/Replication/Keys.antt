-- ===== src/Replication/Keys.antt =====
-- The octal paths of keys: `octal_digit`, `key_has_prefix` and `validate_prefix`.
pub mod Places
pub mod Prefixes
use fractonica.Common.{
  ℕ, zero, suc, ◌+◌, ◌-◌, ◌*◌, ◌/◌, ◌%◌, Bool, true, false, not, ◌&&◌, ◌||◌, ◌==◌, ltb, leb,
  bit_and, bit_or, if◌then◌else◌, List, [], ◌∷◌, length, get_or,
}
use fractonica.Common.Result.{Result, ok, err, ◌>>=◌, ◌>>◌, refuse}
use fractonica.Common.Words.{shl_u, shr}
use fractonica.Replication.{InventoryError, invalid_prefix, key_bytes, max_octal_depth, radix}

-- `(key[bit / 8] >> (7 - (bit % 8))) & 1`
abbrev pub key_bit : List ℕ → ℕ → ℕ
key_bit key bit = bit_and (shr (get_or key (bit / 8) 0) (7 - bit % 8)) 1

-- `for offset in 0..3`, of which `left` rounds are left, with `bit` for `start_bit + offset`.
unfoldable pub digit_loop : ℕ → List ℕ → ℕ → ℕ → ℕ
digit_loop zero key bit digit = digit
digit_loop (suc left) key bit digit =
    let shifted = shl_u 8 digit 1 in
    digit_loop left key (bit + 1)
      (if ltb bit (key_bytes * 8) then bit_or shifted (key_bit key bit) else shifted)

unfoldable pub octal_digit : List ℕ → ℕ → ℕ
unfolding digit_loop
octal_digit key depth = digit_loop 3 key (depth * 3) 0

-- `all` over the digits of a prefix, the first of which stands at `depth`.
unfoldable pub agrees : List ℕ → ℕ → List ℕ → Bool
unfolding octal_digit
agrees key depth [] = true
agrees key depth (digit ∷ rest) = (octal_digit key depth == digit) && agrees key (depth + 1) rest

unfoldable pub key_has_prefix : List ℕ → List ℕ → Bool
unfolding agrees
key_has_prefix key prefix = agrees key 0 prefix

-- `prefix.iter().any(|digit| *digit >= RADIX as u8)`
unfoldable pub any_large : List ℕ → Bool
any_large [] = false
any_large (digit ∷ rest) = leb radix digit || any_large rest

-- `matches!(prefix.last(), Some(0 | 4))`
unfoldable pub ends_whole : List ℕ → Bool
ends_whole [] = false
ends_whole (digit ∷ []) = (digit == 0) || (digit == 4)
ends_whole (digit ∷ next ∷ rest) = ends_whole (next ∷ rest)

unfoldable pub validate_prefix : List ℕ → Result InventoryError (Unit {0})
unfolding any_large ends_whole
validate_prefix prefix = do
  refuse (ltb max_octal_depth (length prefix) || any_large prefix) invalid_prefix
  refuse ((length prefix == max_octal_depth) && not (ends_whole prefix)) invalid_prefix
