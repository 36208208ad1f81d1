-- ===== src/Trust/Cbor/Parts.antt =====
-- Values of which the head says everything, and values whose head is followed by more.
use fractonica.Common.{
  append_assoc, ℕ, zero, suc, ◌+◌, ◌^◌, ◌<◌, ◌≤◌, ◌≡◌, refl, ap, ◌∙◌, bit_and, true, false, not,
  ltb, List, ◌∷◌, ◌++◌, length, arith, lt→ltb,
}
use fractonica.Common.Int.{negsuc}
use fractonica.Common.Words.{shr}
use fractonica.Common.Result.{ok, ◌>>=◌, ◌>>◌, refuse, refuse-ok}
use fractonica.Trust.Value.{CanonicalValue, integer, unsigned, bytes, text}
use fractonica.Trust.Cbor.{Platform, too_deep, invalid_utf8}
use fractonica.Trust.Cbor.Encode.{check_depth}
use fractonica.Trust.Cbor.Decode.{Step, take_bytes, decode_argument, decode_major, decode_value}
use fractonica.Trust.Cbor.Heads.{take_bytes-at}
use fractonica.Trust.Cbor.Heads.Read.{Reads, IsHead}
use fractonica.Trust.Cbor.Reading.{Reads-then, Reads-map, lead_then}

-- What is written after the output at the depth is read by the step for the levels that are left.
abbrev pub IsWritten {ℓ} : {A : Type ℓ} → ℕ → List ℕ → List ℕ → (ℕ → Step A) → A → Type ℓ
IsWritten depth output out step value =
    (enc : List ℕ) × (out ≡ output ++ enc)
    × (length out ≤ 2097152)
    × ((levels : ℕ) → levels + depth ≡ 33 → Reads (step levels) enc value)

module _ (platform : Platform) where
  pub from_lead :
      (depth major lead : ℕ) (tail output out : List ℕ) (value : CanonicalValue)
      → check_depth depth ≡ ok tt
      → out ≡ output ++ (lead ∷ tail)
      → length out ≤ 2097152
      → shr lead 5 ≡ major
      → ((levels : ℕ)
          → levels + suc depth ≡ 33
          → Reads
              (decode_major platform (decode_value platform levels) major (bit_and lead 31))
              tail
              value)
      → IsWritten depth output out (decode_value platform) value
  from_lead depth major lead tail output out value c e s m read = (lead ∷ tail, e, s, by_levels)
    where
      shallow : (n : ℕ) → ltb 32 n ≡ false → n ≤ 32
      shallow n h = ground arith

      by_levels :
          (levels : ℕ)
          → levels + depth ≡ 33
          → Reads (decode_value platform levels) (lead ∷ tail) value
      by_levels zero q =
          absurd (omega (arith, q, shallow depth (refuse-ok (ltb 32 depth) (too_deep depth 32) c)))
      by_levels (suc levels) q =
          lead_then platform levels major lead tail value m (read levels (omega (arith, q)))

  -- A value of which the head says everything.
  pub from_head :
      (depth major n : ℕ) (output out : List ℕ) (value : CanonicalValue)
      → check_depth depth ≡ ok tt
      → IsHead major n output out
      → ((below : Step CanonicalValue) (info : ℕ) (tail : List ℕ)
          → Reads (decode_argument info) tail n
          → Reads (decode_major platform below major info) tail value)
      → IsWritten depth output out (decode_value platform) value
  from_head depth major n output out value c (lead, tail, e, s, m, read) use_head =
      from_lead depth major lead tail output out value c e s m
        (λ levels q. use_head (decode_value platform levels) (bit_and lead 31) tail read)

  -- A value whose head is followed by more.
  pub from_parts :
      (depth major n : ℕ) (output o out rest : List ℕ) (value : CanonicalValue)
      → check_depth depth ≡ ok tt
      → IsHead major n output o
      → out ≡ o ++ rest
      → length out ≤ 2097152
      → ((levels info : ℕ) (tail : List ℕ)
          → levels + suc depth ≡ 33
          → Reads (decode_argument info) tail n
          → Reads
              (decode_major platform (decode_value platform levels) major info)
              (tail ++ rest)
              value)
      → IsWritten depth output out (decode_value platform) value
  from_parts depth major n output o out rest value c (lead, tail, e, _, m, read) e' s parts =
      from_lead depth major lead (tail ++ rest) output out value c
        (e' ∙ ap (λ x. x ++ rest) e ∙ append_assoc output (lead ∷ tail) rest) s m
        (λ levels q. parts levels (bit_and lead 31) tail q read)

  pub unsigned_read :
      (n : ℕ) (below : Step CanonicalValue) (info : ℕ) (tail : List ℕ)
      → Reads (decode_argument info) tail n
      → Reads (decode_major platform below 0 info) tail (unsigned n)
  unfolding decode_major
  unsigned_read n below info tail read = Reads-map (decode_argument info) unsigned tail n read

  pub negative_read :
      (n : ℕ)
      → n < 2 ^ 63
      → (below : Step CanonicalValue) (info : ℕ) (tail : List ℕ)
      → Reads (decode_argument info) tail n
      → Reads (decode_major platform below 1 info) tail (integer (negsuc n))
  unfolding decode_major
  negative_read n r below info tail read before after h =
      rw (read before after h) (rw (lt→ltb n (2 ^ 63) r) refl)

  pub bytes_read :
      (value : List ℕ) (below : Step CanonicalValue) (info : ℕ) (tail : List ℕ)
      → Reads (decode_argument info) tail (length value)
      → Reads (decode_major platform below 2 info) (tail ++ value) (bytes value)
  unfolding decode_major
  bytes_read value below info tail read =
      Reads-then (decode_argument info) (λ size d. take_bytes size d >>= λ p. ok (bytes p.0, p.1))
        tail value (length value) (bytes value) read
        (Reads-map (take_bytes (length value)) bytes value value
          (λ before after h. take_bytes-at before value after h))

  pub text_read :
      (value : List ℕ)
      → platform.is_utf8 value ≡ true
      → (below : Step CanonicalValue) (info : ℕ) (tail : List ℕ)
      → Reads (decode_argument info) tail (length value)
      → Reads (decode_major platform below 3 info) (tail ++ value) (text value)
  unfolding decode_major
  text_read value u below info tail read =
      Reads-then (decode_argument info)
        (λ size d. take_bytes size d >>= λ p.
          refuse (not (platform.is_utf8 p.0)) invalid_utf8 >> ok (text p.0, p.1))
        tail value (length value) (text value) read
        (λ before after h. rw (take_bytes-at before value after h) (rw u refl))
