-- ===== src/Peer/Hex.antt =====
-- The hexadecimal encoding of session identifiers, nonces and signatures. A `&str` is the list of its
-- bytes.
pub mod Nibbles
pub mod Decoding
pub mod RoundTrip
use fractonica.Common.{
  ℕ, zero, suc, ◌+◌, ◌-◌, ◌*◌, ◌/◌, ◌%◌, ◌==◌, leb, Bool, true, false, not, ◌&&◌, ◌||◌, bit_or,
  if◌then◌else◌, List, [], ◌∷◌, ◌++◌, length, get_or,
}
use fractonica.Common.Result.{Result, ok, err, ◌>>=◌, ◌>>◌, refuse}
use fractonica.Common.Words.{shl_u, add_u, sub_u}
use fractonica.Peer.{PeerProofError, invalid_fixed_hex, invalid_signature_encoding}

abbrev pub fixed_bytes : ℕ
fixed_bytes = 16

abbrev pub signature_bytes : ℕ
signature_bytes = 64

abbrev pub signature_hex_bytes : ℕ
signature_hex_bytes = 128

-- `b'0'..=b'9'` and `b'a'..=b'f'`
abbrev pub is_decimal : ℕ → Bool
is_decimal value = leb 48 value && leb value 57

abbrev pub is_letter : ℕ → Bool
is_letter value = leb 97 value && leb value 102

unfoldable pub is_lower_hex : ℕ → Bool
is_lower_hex value = is_decimal value || is_letter value

unfoldable pub hex_nibble : ℕ → Result PeerProofError ℕ
hex_nibble value =
    if is_decimal value
    then ok (value - 48)
    else if is_letter value
    then ok (value - 97 + 10)
    else err invalid_fixed_hex

-- `for (index, byte) in output.iter_mut().enumerate()`, with `left` bytes to write.
unfoldable pub decode_loop : ℕ → ℕ → List ℕ → Result PeerProofError (List ℕ)
unfolding hex_nibble
decode_loop zero index input = ok []
decode_loop (suc left) index input = do
  high ← hex_nibble (get_or input (index * 2) 0)
  low ← hex_nibble (get_or input (index * 2 + 1) 0)
  rest ← decode_loop left (index + 1) input
  ok (bit_or (shl_u 8 high 4) low ∷ rest)

-- The output, of the given number of bytes.
unfoldable pub decode_hex : List ℕ → ℕ → Result PeerProofError (List ℕ)
unfolding decode_loop
decode_hex input size = do
  refuse (not (length input == size * 2)) invalid_fixed_hex
  decode_loop size 0 input

-- `value.bytes().all(is_lower_hex)`
unfoldable pub all_lower_hex : List ℕ → Bool
unfolding is_lower_hex
all_lower_hex [] = true
all_lower_hex (x ∷ xs) = is_lower_hex x && all_lower_hex xs

unfoldable pub parse_fixed_hex : List ℕ → Result PeerProofError (List ℕ)
unfolding all_lower_hex decode_hex
parse_fixed_hex value = do
  refuse (not (length value == fixed_bytes * 2) || not (all_lower_hex value)) invalid_fixed_hex
  decode_hex value fixed_bytes

unfoldable pub parse_signature_hex : List ℕ → Result PeerProofError (List ℕ)
unfolding all_lower_hex decode_hex
parse_signature_hex value = do
  refuse (not (length value == signature_hex_bytes) || not (all_lower_hex value))
      invalid_signature_encoding
  decode_hex value signature_bytes

-- `{byte:02x}`: two lowercase hexadecimal digits.
abbrev pub hex_digit : ℕ → ℕ
hex_digit nibble = if leb nibble 9 then 48 + nibble else 87 + nibble

-- `bytes_hex` and `write_hex`
unfoldable pub bytes_hex : List ℕ → List ℕ
bytes_hex [] = []
bytes_hex (byte ∷ rest) = hex_digit (byte / 16) ∷ hex_digit (byte % 16) ∷ bytes_hex rest
