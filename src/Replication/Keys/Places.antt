-- ===== src/Replication/Keys/Places.antt =====
-- The octal digits of a key are its bits, three by three, and determine it.
use fractonica.Common.{
  ℕ, suc, ◌+◌, ◌-◌, ◌*◌, ◌/◌, ◌%◌, ◌^◌, ◌<◌, ◌≡◌, refl, sym, ap, ap₂, subst, ◌∙◌, Bool, true, false,
  ltb, bit_or, if◌then◌else◌, List, [], ◌∷◌, length, get_or, arith, ℕ_discrete, ◌⊎◌, inl, inr,
}
use fractonica.Common.Words.{shl_u, shr}
use fractonica.Common.Bits.{bit_or_append_bit, bit_and-one}
use fractonica.Common.Arrays.{IsArray}
use fractonica.Replication.Keys.{key_bit, digit_loop, octal_digit}

-- Bit i of a key, most significant first; there is none from 256 on.
abbrev pub bit_of : List ℕ → ℕ → ℕ
bit_of key i = if ltb i 256 then key_bit key i else 0

key_bit-small : (key : List ℕ) (i : ℕ) → key_bit key i < 2
key_bit-small key i = omega (arith, bit_and-one (shr (get_or key (i / 8) 0) (7 - i % 8)))

bit_of-small : (key : List ℕ) (i : ℕ) → bit_of key i < 2
bit_of-small key i = by_test (ltb i 256)
  where
    by_test : (b : Bool) → (if b then key_bit key i else 0) < 2
    by_test true = key_bit-small key i
    by_test false = omega arith

-- `digit <<= 1`, and `digit |= bit` for a bit inside the key.
append_bit :
    (b : Bool) (digit v : ℕ)
    → digit < 128
    → v < 2
    → (if b then bit_or (shl_u 8 digit 1) v else shl_u 8 digit 1) ≡ digit * 2 + (if b then v else 0)
append_bit true digit v h g = rw (doubled) (bit_or_append_bit digit v g)
  where
    doubled : shl_u 8 digit 1 ≡ digit * 2
    doubled = omega arith
append_bit false digit v h g = omega arith

digit_loop-step :
    (left : ℕ) (key : List ℕ) (bit digit : ℕ)
    → digit < 128
    → digit_loop (suc left) key bit digit
      ≡ digit_loop left key (bit + 1) (digit * 2 + bit_of key bit)
unfolding digit_loop
digit_loop-step left key bit digit h =
    ap (digit_loop left key (bit + 1))
      (append_bit (ltb bit 256) digit (key_bit key bit) h (key_bit-small key bit))

digit_loop-end : (key : List ℕ) (bit digit : ℕ) → digit_loop 0 key bit digit ≡ digit
unfolding digit_loop
digit_loop-end key bit digit = refl

-- A digit of a key.
octal_digit-bits :
    (key : List ℕ) (depth : ℕ)
    → octal_digit key depth
      ≡ ((0 * 2 + bit_of key (depth * 3)) * 2 + bit_of key (depth * 3 + 1)) * 2
        + bit_of key (depth * 3 + 1 + 1)
unfolding octal_digit
octal_digit-bits key depth =
    digit_loop-step 2 key (depth * 3) 0 (omega arith)
    ∙ digit_loop-step 1 key (depth * 3 + 1) (0 * 2 + bit_of key (depth * 3))
        (omega (arith, bit_of-small key (depth * 3)))
    ∙ digit_loop-step 0 key (depth * 3 + 1 + 1)
        ((0 * 2 + bit_of key (depth * 3)) * 2 + bit_of key (depth * 3 + 1))
        (omega (arith, bit_of-small key (depth * 3), bit_of-small key (depth * 3 + 1)))
    ∙ digit_loop-end key (depth * 3 + 1 + 1 + 1) _

pub octal_digit-small : (key : List ℕ) (depth : ℕ) → octal_digit key depth < 8
octal_digit-small key depth = omega (
  arith,
  octal_digit-bits key depth,
  bit_of-small key (depth * 3),
  bit_of-small key (depth * 3 + 1),
  bit_of-small key (depth * 3 + 1 + 1),
)

-- The last digit has one bit of the key.
pub octal_digit-last : (key : List ℕ) → (octal_digit key 85 ≡ 0) ⊎ (octal_digit key 85 ≡ 4)
octal_digit-last key = elim (ℕ_discrete (bit_of key 255) 0) [
  | yes e ↦ inl (omega (arith, octal_digit-bits key 85))
  | no e ↦ inr (omega (arith, octal_digit-bits key 85, bit_of-small key 255))
]

-- Equal digits have equal bits.
same_bits :
    (a b : List ℕ) (d : ℕ)
    → octal_digit a d ≡ octal_digit b d
    → (bit_of a (d * 3) ≡ bit_of b (d * 3))
      × (bit_of a (d * 3 + 1) ≡ bit_of b (d * 3 + 1))
      × (bit_of a (d * 3 + 1 + 1) ≡ bit_of b (d * 3 + 1 + 1))
same_bits a b d e =
    split (bit_of-small a (d * 3)) (bit_of-small b (d * 3)) (bit_of-small a (d * 3 + 1))
      (bit_of-small b (d * 3 + 1)) (bit_of-small a (d * 3 + 1 + 1)) (bit_of-small b (d * 3 + 1 + 1))
      (sym (octal_digit-bits a d) ∙ e ∙ octal_digit-bits b d)
  where
    split :
        {x x' y y' z z' : ℕ}
        → x < 2
        → x' < 2
        → y < 2
        → y' < 2
        → z < 2
        → z' < 2
        → ((0 * 2 + x) * 2 + y) * 2 + z ≡ ((0 * 2 + x') * 2 + y') * 2 + z'
        → (x ≡ x') × (y ≡ y') × (z ≡ z')
    split a b c d e f g = (omega arith, omega arith, omega arith)

same_bit :
    (a b : List ℕ)
    → ((d : ℕ) → d < 86 → octal_digit a d ≡ octal_digit b d)
    → (i : ℕ) → i < 256
    → bit_of a i ≡ bit_of b i
same_bit a b same i h = elim (ℕ_discrete (i % 3) 0) [
  | yes e ↦ at i (i / 3 * 3) (omega arith) here.0
  | no e ↦ elim (ℕ_discrete (i % 3) 1) [
    | yes f ↦ at i (i / 3 * 3 + 1) (omega arith) here.1
    | no f ↦ at i (i / 3 * 3 + 1 + 1) (omega arith) here.2
  ]
]
  where
    here :
        (bit_of a (i / 3 * 3) ≡ bit_of b (i / 3 * 3))
        × (bit_of a (i / 3 * 3 + 1) ≡ bit_of b (i / 3 * 3 + 1))
        × (bit_of a (i / 3 * 3 + 1 + 1) ≡ bit_of b (i / 3 * 3 + 1 + 1))
    here = same_bits a b (i / 3) (same (i / 3) (omega arith))

    at : (i j : ℕ) → i ≡ j → bit_of a j ≡ bit_of b j → bit_of a i ≡ bit_of b i
    at i j e p = subst (λ k. bit_of a k ≡ bit_of b k) (sym e) p

-- The bits of the byte at place k.
bit_of-byte :
    (key : List ℕ) (k j : ℕ)
    → k < 32
    → j < 8
    → bit_of key (k * 8 + j) ≡ get_or key k 0 / 2 ^ (7 - j) % 2
bit_of-byte key k j h g = rw (inside (k * 8 + j) (omega arith)) (
    bit_and-one (shr (get_or key ((k * 8 + j) / 8) 0) (7 - (k * 8 + j) % 8))
    ∙ ap₂ (λ p r. get_or key p 0 / 2 ^ (7 - r) % 2) place rest)
  where
    inside : (i : ℕ) → i < 256 → ltb i 256 ≡ true
    inside i h = ground arith

    place : (k * 8 + j) / 8 ≡ k
    place = omega arith

    rest : (k * 8 + j) % 8 ≡ j
    rest = omega arith

same_byte :
    (x y : ℕ)
    → x < 256
    → y < 256
    → ((j : ℕ) → j < 8 → x / 2 ^ (7 - j) % 2 ≡ y / 2 ^ (7 - j) % 2)
    → x ≡ y
same_byte x y p q same = omega (
  arith,
  same 0 (omega arith),
  same 1 (omega arith),
  same 2 (omega arith),
  same 3 (omega arith),
  same 4 (omega arith),
  same 5 (omega arith),
  same 6 (omega arith),
  same 7 (omega arith),
)

get_or-ext :
    (xs ys : List ℕ)
    → length xs ≡ length ys
    → ((k : ℕ) → k < length xs → get_or xs k 0 ≡ get_or ys k 0)
    → xs ≡ ys
get_or-ext [] [] e same = refl
get_or-ext [] (y ∷ ys) e same = absurd (omega arith)
get_or-ext (x ∷ xs) [] e same = absurd (omega arith)
get_or-ext (x ∷ xs) (y ∷ ys) e same =
    ap₂ (λ h t. h ∷ t) (same 0 (omega arith))
      (get_or-ext xs ys (omega arith) (λ k h. same (suc k) (omega arith)))

-- Two keys of 32 bytes whose first 86 octal digits are equal are equal.
pub octal_digit-determines :
    (a b : List ℕ)
    → IsArray 32 a
    → IsArray 32 b
    → ((d : ℕ) → d < 86 → octal_digit a d ≡ octal_digit b d)
    → a ≡ b
octal_digit-determines a b p q same = get_or-ext a b (p.size ∙ sym q.size) bytes
  where
    bytes : (k : ℕ) → k < length a → get_or a k 0 ≡ get_or b k 0
    bytes k h = same_byte (get_or a k 0) (get_or b k 0) (p.each k) (q.each k) (λ j g.
        sym (bit_of-byte a k j (omega (arith, p.size)) g)
        ∙ same_bit a b same (k * 8 + j) (omega (arith, p.size))
        ∙ bit_of-byte b k j (omega (arith, p.size)) g)
