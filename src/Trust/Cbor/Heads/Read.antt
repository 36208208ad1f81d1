-- ===== src/Trust/Cbor/Heads/Read.antt =====
-- A head that is written is read back.
use native.Mathlib.Nat.{pow-suc, div-eq_of_lt, div-div-eq-div-mul}
use fractonica.Common.{
  append-nil, append_assoc, ℕ, zero, suc, ◌+◌, ◌*◌, ◌/◌, ◌%◌, ◌^◌, ◌<◌, ◌≤◌, ◌≡◌, refl, sym, ap,
  subst, ◌∙◌, bit_or, bit_and, arith, ltb, leb, Bool, Bool-cases, true, false, inl, inr, List, [],
  ◌∷◌, ◌++◌, length, length-append, if◌then◌else◌,
}
use fractonica.Common.Bits.{bit_or_append_five, bit_and_31}
use fractonica.Common.Words.{shl_u, shr}
use fractonica.Common.Result.{ok, err, ◌>>=◌, >>=-ok, ok-injective}
use fractonica.Trust.Cbor.{
  encoded_too_large, max_canonical_bytes, push, encode_head, be_bytes, from_be_bytes,
}
use fractonica.Trust.Cbor.Decode.{Step, take_bytes, wide, decode_argument}
use fractonica.Trust.Cbor.Heads.{at, take_byte-at, take_bytes-at}

pub from_be_bytes-be_bytes :
    (acc k v : ℕ) → acc ≡ v / 256 ^ k → from_be_bytes acc (be_bytes k v) ≡ v
from_be_bytes-be_bytes acc zero v h = omega (arith, h)
from_be_bytes-be_bytes acc (suc k) v h =
    from_be_bytes-be_bytes (acc * 256 + v / 256 ^ k % 256) k v (low (v / 256 ^ k) (h ∙ split))
  where
    split : v / 256 ^ suc k ≡ v / 256 ^ k / 256
    split = rw (pow-suc 256 k) (sym (div-div-eq-div-mul v (256 ^ k) 256))

    low : (w : ℕ) → acc ≡ w / 256 → acc * 256 + w % 256 ≡ w
    low w e = omega arith

pub length-be_bytes : (k v : ℕ) → length (be_bytes k v) ≡ k
length-be_bytes zero v = refl
length-be_bytes (suc k) v = ap suc (length-be_bytes k v)

pub push-ok :
    (output b out : List ℕ)
    → push output b ≡ ok out
    → (out ≡ output ++ b) × (length output + length b ≤ 2097152)
unfolding push
push-ok output b out h = by_test (ltb 2097152 (length output + length b)) refl h
  where
    by_test :
        (t : Bool)
        → ltb 2097152 (length output + length b) ≡ t
        → (if t
            then err (encoded_too_large (length output + length b) max_canonical_bytes)
            else ok (output ++ b))
          ≡ ok out
        → (out ≡ output ++ b) × (length output + length b ≤ 2097152)
    by_test true e g = absurd cc
    by_test false e g = (sym (ok-injective g), ground arith)

pub push_two :
    (output out : List ℕ) (b : ℕ) (bs : List ℕ)
    → (push output (b ∷ []) >>= λ o. push o bs) ≡ ok out
    → (out ≡ output ++ (b ∷ bs)) × (length out ≤ 2097152)
push_two output out b bs h =
    let (o, p, q) = >>=-ok (push output (b ∷ [])) (λ o. push o bs) h in
    let (e, _) = push-ok output (b ∷ []) o p in
    let (e', s) = push-ok o bs out q in
    (
      e' ∙ ap (λ x. x ++ bs) e ∙ append_assoc output (b ∷ []) bs,
      omega (arith, s, ap length e', length-append o bs),
    )

lead_byte :
    (major info : ℕ)
    → major < 8
    → info < 32
    → (shr (bit_or (shl_u 8 major 5) info) 5 ≡ major)
      × (bit_and (bit_or (shl_u 8 major 5) info) 31 ≡ info)
lead_byte major info m i =
    rw (bit_and_31 (bit_or (shl_u 8 major 5) info)) (rw joined (omega arith, omega arith))
  where
    joined : bit_or (shl_u 8 major 5) info ≡ major * 32 + info
    joined = rw shifted (bit_or_append_five major info i)
      where
        shifted : shl_u 8 major 5 ≡ major * 32
        shifted = omega arith

-- The bytes are read as the value.
abbrev pub Reads {ℓ} : {A : Type ℓ} → Step A → List ℕ → A → Type ℓ
Reads step taken value =
    (before after : List ℕ)
    → length before + length taken < 2 ^ 64
    → step (at before (taken ++ after)) ≡ ok (value, at (before ++ taken) after)

small_read : (value : ℕ) → leb value 23 ≡ true → Reads (decode_argument value) [] value
unfolding decode_argument
small_read value t before after h = rw (t, append-nil before) refl

byte_read : (value : ℕ) → leb value 23 ≡ false → Reads (decode_argument 24) (value ∷ []) value
unfolding decode_argument
byte_read value f before after h = rw (take_byte-at before value after) (rw (not_less value f) refl)
  where
    not_less : (value : ℕ) → leb value 23 ≡ false → ltb value 24 ≡ false
    not_less value f = ground arith

wide_read :
    (k minimum value : ℕ)
    → 0 ≡ value / 256 ^ k
    → minimum ≤ value
    → Reads (wide k minimum) (be_bytes k value) value
wide_read k minimum value z m before after h =
    rw taken (rw (from_be_bytes-be_bytes 0 k value z) (rw (not_less value minimum m) refl))
  where
    taken :
        take_bytes k (at before (be_bytes k value ++ after))
        ≡ ok (be_bytes k value, at (before ++ be_bytes k value) after)
    taken =
        subst
          (λ n.
            take_bytes n (at before (be_bytes k value ++ after))
            ≡ ok (be_bytes k value, at (before ++ be_bytes k value) after))
          (length-be_bytes k value) (take_bytes-at before (be_bytes k value) after h)

    not_less : (n m : ℕ) → m ≤ n → ltb n m ≡ false
    not_less n m h = ground arith

-- The value is written after the output as a head: a byte of the major type, and an argument.
abbrev pub IsHead : ℕ → ℕ → List ℕ → List ℕ → Type 0
IsHead major value output out =
    (lead : ℕ) × (tail : List ℕ) × (out ≡ output ++ (lead ∷ tail))
    × (length out ≤ 2097152)
    × (shr lead 5 ≡ major)
    × Reads (decode_argument (bit_and lead 31)) tail value

head_of :
    (major info value : ℕ) (tail output out : List ℕ)
    → major < 8
    → info < 32
    → (out ≡ output ++ (bit_or (shl_u 8 major 5) info ∷ tail)) × (length out ≤ 2097152)
    → Reads (decode_argument info) tail value
    → IsHead major value output out
head_of major info value tail output out m i (e, s) read = (
  bit_or (shl_u 8 major 5) info,
  tail,
  e,
  s,
  (lead_byte major info m i).0,
  subst (λ n. Reads (decode_argument n) tail value) (sym (lead_byte major info m i).1) read,
)

pub encode_head-read :
    (major value : ℕ) (output out : List ℕ)
    → major < 8
    → value < 2 ^ 64
    → encode_head major value output ≡ ok out
    → IsHead major value output out
unfolding encode_head decode_argument
encode_head-read major value output out m v h = elim (Bool-cases (leb value 23)) [
  | inl t ↦
      head_of major value value [] output out m (small value t)
        (one (bit_or (shl_u 8 major 5) value ∷ [])
          (rw (t, byte value (leb_small value t), encode_head) at h))
        (small_read value t)
  | inr f ↦ elim (Bool-cases (leb value 255)) [
    | inl t ↦
        head_of major 24 value (value ∷ []) output out m (omega arith)
          (one (bit_or (shl_u 8 major 5) 24 ∷ value ∷ [])
            (rw (f, t, byte value t, encode_head) at h))
          (byte_read value f)
    | inr f2 ↦ elim (Bool-cases (leb value 65535)) [
      | inl t ↦
          head_of major 25 value (be_bytes 2 value) output out m (omega arith)
            (push_two output out (bit_or (shl_u 8 major 5) 25) (be_bytes 2 value)
              (rw (f, f2, t, encode_head) at h))
            (wide_read 2 256 value (below value 65535 t) (above value 255 f2))
      | inr f3 ↦ elim (Bool-cases (leb value 4294967295)) [
        | inl t ↦
            head_of major 26 value (be_bytes 4 value) output out m (omega arith)
              (push_two output out (bit_or (shl_u 8 major 5) 26) (be_bytes 4 value)
                (rw (f, f2, f3, t, encode_head) at h))
              (wide_read 4 65536 value (below value 4294967295 t) (above value 65535 f3))
        | inr f4 ↦
            head_of major 27 value (be_bytes 8 value) output out m (omega arith)
              (push_two output out (bit_or (shl_u 8 major 5) 27) (be_bytes 8 value)
                (rw (f, f2, f3, f4, encode_head) at h))
              (wide_read 8 4294967296 value (last value v) (above value 4294967295 f4))
      ]
    ]
  ]
]
  where
    byte : (n : ℕ) → leb n 255 ≡ true → n % 2 ^ 8 ≡ n
    byte n t = ground arith

    leb_small : (n : ℕ) → leb n 23 ≡ true → leb n 255 ≡ true
    leb_small n t = ground arith

    small : (n : ℕ) → leb n 23 ≡ true → n < 32
    small n t = ground arith

    one : (b : List ℕ) → push output b ≡ ok out → (out ≡ output ++ b) × (length out ≤ 2097152)
    one b g =
        let (e, s) = push-ok output b out g in
        (e, omega (arith, s, ap length e, length-append output b))

    under : (n k : ℕ) → leb n k ≡ true → n < suc k
    under n k t = ground arith

    below : (n k : ℕ) → leb n k ≡ true → 0 ≡ n / suc k
    below n k t = sym (div-eq_of_lt (under n k t))

    above : (n k : ℕ) → leb n k ≡ false → suc k ≤ n
    above n k f = ground arith

    last : (n : ℕ) → n < 2 ^ 64 → 0 ≡ n / 256 ^ 8
    last n h = omega arith
