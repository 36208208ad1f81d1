-- ===== src/Trust/Cbor/Heads.antt =====
-- The heads: what `encode_head` writes is read by `take_byte` and `decode_argument`.
pub mod Read
use fractonica.Common.{
  take-append, drop-append, append_assoc, ℕ, zero, suc, ◌+◌, ◌*◌, ◌/◌, ◌%◌, ◌^◌, ◌<◌, ◌≤◌, ◌≡◌,
  refl, sym, ap, ◌∙◌, bit_or, bit_and, arith, tests, ltb, leb, ◌==◌, Bool, Bool-cases, true, false,
  inl, inr, not, List, [], ◌∷◌, ◌++◌, length, take, drop, get_elem?, length-append, Option, some,
  if◌then◌else◌,
}
use fractonica.Common.Bits.{bit_or_append_five, bit_and_31}
use fractonica.Common.Words.{shl_u, shr}
use fractonica.Common.Result.{ok, ◌>>=◌, ◌>>◌, refuse, ok_or}
use fractonica.Trust.Cbor.{push, encode_head, be_bytes, from_be_bytes, unexpected_end}
use fractonica.Trust.Cbor.Decode.{Decoder, take_byte, take_bytes, wide, decode_argument}

-- A decoder after the bytes that were read.
abbrev pub at : List ℕ → List ℕ → Decoder
at before after = record { input = before ++ after; offset = length before }

get_elem?-append :
    (before : List ℕ) (b : ℕ) (after : List ℕ)
    → get_elem? (before ++ (b ∷ after)) (length before) ≡ some b
get_elem?-append [] b after = refl
get_elem?-append (x ∷ xs) b after = get_elem?-append xs b after

-- The decoder after the taken bytes is again one after bytes that were read.
pub at-append :
    (before taken after : List ℕ)
    → ◌≡◌ {A = Decoder}
        (record { input = before ++ (taken ++ after); offset = length before + length taken })
        (at (before ++ taken) after)
at-append before taken after = λ i. record {
  input = sym (append_assoc before taken after) i;
  offset = sym (length-append before taken) i;
}

pub take_byte-at :
    (before : List ℕ) (b : ℕ) (after : List ℕ)
    → take_byte (at before (b ∷ after)) ≡ ok (b, at (before ++ (b ∷ [])) after)
unfolding take_byte
take_byte-at before b after =
    rw (get_elem?-append before b after) (ap (λ d. ok (b, d)) (at-append before (b ∷ []) after))

pub take_bytes-at :
    (before taken after : List ℕ)
    → length before + length taken < 2 ^ 64
    → take_bytes (length taken) (at before (taken ++ after))
      ≡ ok (taken, at (before ++ taken) after)
unfolding take_bytes
take_bytes-at before taken after h = rw (fits (length before + length taken) h) (
    rw (inside (length before + length taken) (length (before ++ (taken ++ after))) total) (
      rw (drop-append before (taken ++ after))
        (rw (take-append taken after) (ap (λ d. ok (taken, d)) (at-append before taken after)))))
  where
    fits : (n : ℕ) → n < 2 ^ 64 → not (ltb n (2 ^ 64)) ≡ false
    fits n h = ground arith

    inside : (n m : ℕ) → n ≤ m → ltb m n ≡ false
    inside n m h = ground arith

    total : length before + length taken ≤ length (before ++ (taken ++ after))
    total = omega (arith, length-append before (taken ++ after), length-append taken after)
