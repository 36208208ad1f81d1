-- ===== src/Trust/Cbor/Reading.antt =====
-- Steps of the decoder that read what was written, one after the other.
use fractonica.Common.{
  take-append, drop-append, append-nil, append_assoc, ℕ, suc, ◌-◌, ◌≡◌, refl, ap, ◌∙◌, bit_and,
  List, [], ◌∷◌, ◌++◌, length, length-append, take, drop, arith,
}
use fractonica.Common.Words.{shr}
use fractonica.Common.Result.{ok, ◌>>=◌}
use fractonica.Trust.Value.{CanonicalValue}
use fractonica.Trust.Cbor.{Platform}
use fractonica.Trust.Cbor.Decode.{Step, decode_major, decode_value}
use fractonica.Trust.Cbor.Heads.{at, take_byte-at}
use fractonica.Trust.Cbor.Heads.Read.{Reads}

-- Two steps.
pub Reads-then {ℓ κ} :
    {A : Type ℓ} {B : Type κ} (step : Step A) (next : A → Step B) (s t : List ℕ) (a : A) (b : B)
    → Reads step s a
    → Reads (next a) t b
    → Reads (λ d. step d >>= λ p. next p.0 p.1) (s ++ t) b
Reads-then step next s t a b first second before after h = rw (append_assoc s t after) (
    rw (first before (t ++ after) (omega (arith, h, length-append s t))) (
      second (before ++ s) after (omega (arith, h, length-append s t, length-append before s))
      ∙ ap (λ i. ok (b, at i after)) (append_assoc before s t)))

-- A step, and a function of what it reads.
pub Reads-map {ℓ κ} :
    {A : Type ℓ} {B : Type κ} (step : Step A) (f : A → B) (s : List ℕ) (a : A)
    → Reads step s a
    → Reads (λ d. step d >>= λ p. ok (f p.0, p.1)) s (f a)
Reads-map step f s a first before after h = rw (first before after h) refl

-- Nothing is read.
pub Reads-nil {ℓ} : {A : Type ℓ} (a : A) → Reads (λ d. ok (a, d)) [] a
Reads-nil a before after h = rw (append-nil before) refl

-- The bytes between two places of the decoder.
pub key_bytes-at :
    (before key after : List ℕ)
    → take
        (length (before ++ key) - length before)
        (drop (length before) (before ++ (key ++ after)))
      ≡ key
key_bytes-at before key after = rw (drop-append before (key ++ after)) (
    ap (λ n. take n (key ++ after)) (omega (arith, length-append before key))
    ∙ take-append key after)

-- A value is read if its first byte and what follows it are.
pub lead_then :
    (platform : Platform) (levels major lead : ℕ) (tail : List ℕ) (value : CanonicalValue)
    → shr lead 5 ≡ major
    → Reads
        (decode_major platform (decode_value platform levels) major (bit_and lead 31))
        tail
        value
    → Reads (decode_value platform (suc levels)) (lead ∷ tail) value
unfolding decode_value
lead_then platform levels major lead tail value e read before after h =
    rw (take_byte-at before lead (tail ++ after)) (
      rw e (
        read (before ++ (lead ∷ [])) after (omega (arith, h, length-append before (lead ∷ [])))
        ∙ ap (λ i. ok (value, at i after)) (append_assoc before (lead ∷ []) tail)))
