-- ===== src/Trust/Cbor/Floats.antt =====
-- A float is read from the shortest form that it is written in.
use native.Mathlib.Nat.{div-eq_of_lt}
use fractonica.Common.{
  ℕ, ◌^◌, ◌<◌, ◌≤◌, ◌≡◌, refl, sym, subst, ◌==◌, bit_and, Bool-cases, true, false, not, inl, inr,
  List, ◌∷◌, ◌++◌, length, arith,
}
use fractonica.Common.Arrays.{not-false}
use fractonica.Common.Words.{shr}
use fractonica.Common.Result.{ok, refuse, >>-ok, refuse-ok}
use fractonica.Trust.Value.{CanonicalValue, float, is_finite}
use fractonica.Trust.Cbor.{Platform, be_bytes, non_finite_float}
use fractonica.Trust.Cbor.Encode.{encode_float}
use fractonica.Trust.Cbor.Decode.{take_bytes, decode_simple}
use fractonica.Trust.Cbor.Heads.{at, take_bytes-at}
use fractonica.Trust.Cbor.Heads.Read.{Reads, from_be_bytes-be_bytes, length-be_bytes, push_two}
use fractonica.Trust.Cbor.Normal.{IsPlatform}

be_bytes_read : (k v : ℕ) → Reads (take_bytes k) (be_bytes k v) (be_bytes k v)
be_bytes_read k v before after h =
    subst
      (λ n.
        take_bytes n (at before (be_bytes k v ++ after))
        ≡ ok (be_bytes k v, at (before ++ be_bytes k v) after))
      (length-be_bytes k v) (take_bytes-at before (be_bytes k v) after h)

-- The value is written as a byte of the major type 7 and its bits.
abbrev pub IsSimple : Platform → CanonicalValue → List ℕ → List ℕ → Type 0
IsSimple platform value output out =
    (lead : ℕ) × (tail : List ℕ) × (out ≡ output ++ (lead ∷ tail))
    × (length out ≤ 2097152)
    × (shr lead 5 ≡ 7)
    × Reads (decode_simple platform (bit_and lead 31)) tail value

same_number : (a b : ℕ) → (a == b) ≡ true → a ≡ b
same_number a b h = ground arith

module _ (platform : Platform) (law : IsPlatform platform) (bits : ℕ) (in_range : bits < 2 ^ 64)
    (finite : is_finite bits ≡ true) where
  open platform use {half_from_f64, half_to_f64, single_from_f64, single_to_f64}

  half_read :
      (half_to_f64 (half_from_f64 bits) == bits) ≡ true
      → Reads (decode_simple platform 25) (be_bytes 2 (half_from_f64 bits)) (float bits)
  unfolding decode_simple
  half_read t before after h = rw (be_bytes_read 2 (half_from_f64 bits) before after h) (
      rw (from_be_bytes-be_bytes 0 2 (half_from_f64 bits) (sym (div-eq_of_lt (law.half_bits bits))))
        (rw (same_number (half_to_f64 (half_from_f64 bits)) bits t) (rw finite refl)))

  single_read :
      (half_to_f64 (half_from_f64 bits) == bits) ≡ false
      → (single_to_f64 (single_from_f64 bits) == bits) ≡ true
      → Reads (decode_simple platform 26) (be_bytes 4 (single_from_f64 bits)) (float bits)
  unfolding decode_simple
  single_read f t before after h = rw (be_bytes_read 4 (single_from_f64 bits) before after h) (
      rw
        (from_be_bytes-be_bytes 0 4 (single_from_f64 bits)
          (sym (div-eq_of_lt (law.single_bits bits))))
        (rw (same_number (single_to_f64 (single_from_f64 bits)) bits t) (rw finite (rw f refl))))

  double_read :
      (single_to_f64 (single_from_f64 bits) == bits) ≡ false
      → Reads (decode_simple platform 27) (be_bytes 8 bits) (float bits)
  unfolding decode_simple
  double_read f before after h =
      rw (be_bytes_read 8 bits before after h)
        (rw (from_be_bytes-be_bytes 0 8 bits (sym (div-eq_of_lt in_range))) (rw finite (rw f refl)))

pub encode_float-read :
    (platform : Platform) (bits : ℕ) (output out : List ℕ)
    → IsPlatform platform
    → bits < 2 ^ 64
    → encode_float platform bits output ≡ ok out
    → IsSimple platform (float bits) output out
unfolding encode_float
encode_float-read platform bits output out law r h =
    let (f, g) = >>-ok (refuse (not (is_finite bits)) non_finite_float) _ h in
    let finite = not-false (is_finite bits) (refuse-ok (not (is_finite bits)) non_finite_float f) in
    elim (Bool-cases (platform.half_to_f64 (platform.half_from_f64 bits) == bits)) [
      | inl t ↦
          let (e, s) =
            push_two output out 249 (be_bytes 2 (platform.half_from_f64 bits)) (rw t at g) in
          (
            249,
            be_bytes 2 (platform.half_from_f64 bits),
            e,
            s,
            refl,
            half_read platform law bits r finite t,
          )
      | inr n ↦ elim (Bool-cases (platform.single_to_f64 (platform.single_from_f64 bits) == bits)) [
        | inl t ↦
            let (e, s) =
              push_two output out 250 (be_bytes 4 (platform.single_from_f64 bits))
                (rw (n, t) at g) in
            (
              250,
              be_bytes 4 (platform.single_from_f64 bits),
              e,
              s,
              refl,
              single_read platform law bits r finite n t,
            )
        | inr m ↦
            let (e, s) = push_two output out 251 (be_bytes 8 bits) (rw (n, m) at g) in
            (251, be_bytes 8 bits, e, s, refl, double_read platform law bits r finite m)
      ]
    ]
