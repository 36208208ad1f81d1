-- ===== src/Common/Arrays.antt =====
-- `[u8; n]`, as a list of numbers.
use fractonica.Common.{
  ℕ, ◌≡◌, ◌<◌, refl, sym, ap, ap₂, ◌∙◌, Bool, true, false, not, ◌&&◌, ◌==◌, arith, List, [], ◌∷◌,
  length, get_or,
}

pub record IsArray (n : ℕ) (bytes : List ℕ) : Type 0 where
  pub size : length bytes ≡ n
  pub each : (i : ℕ) → get_or bytes i 0 < 256

-- `==` of byte strings.
abbrev pub eqb_bytes : List ℕ → List ℕ → Bool
eqb_bytes [] [] = true
eqb_bytes [] (y ∷ ys) = false
eqb_bytes (x ∷ xs) [] = false
eqb_bytes (x ∷ xs) (y ∷ ys) = (x == y) && eqb_bytes xs ys

pub &&-true : (a b : Bool) → (a && b) ≡ true → (a ≡ true) × (b ≡ true)
&&-true true b h = (refl, h)
&&-true false b h = absurd cc

pub not-false : (a : Bool) → not a ≡ false → a ≡ true
not-false true h = refl
not-false false h = absurd cc

eqb_bytes-same : (a : List ℕ) → eqb_bytes a a ≡ true
eqb_bytes-same [] = refl
eqb_bytes-same (x ∷ xs) = both (x == x) (eqb_bytes xs xs) (ground arith) (eqb_bytes-same xs)
  where
    both : (a b : Bool) → a ≡ true → b ≡ true → (a && b) ≡ true
    both a b p q = rw p q

pub equal-eqb_bytes : (a b : List ℕ) → a ≡ b → eqb_bytes a b ≡ true
equal-eqb_bytes a b h = ap (eqb_bytes a) (sym h) ∙ eqb_bytes-same a

pub eqb_bytes-equal : (a b : List ℕ) → eqb_bytes a b ≡ true → a ≡ b
eqb_bytes-equal [] [] h = refl
eqb_bytes-equal [] (y ∷ ys) h = absurd cc
eqb_bytes-equal (x ∷ xs) [] h = absurd cc
eqb_bytes-equal (x ∷ xs) (y ∷ ys) h =
    let (p, q) = &&-true (x == y) (eqb_bytes xs ys) h in
    ap₂ (λ z zs. z ∷ zs) (ground arith) (eqb_bytes-equal xs ys q)
