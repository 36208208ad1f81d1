-- ===== src/Replication/Bytes.antt =====
-- Byte strings: the order of arrays, which a BTreeMap keeps its keys in, and their equality.
use fractonica.Common.{
  ℕ, ◌<◌, ◌≡◌, refl, ap₂, ◌⊎◌, inl, inr, List, [], ◌∷◌, arith, dec_lt, subst, sym,
}

-- The lexicographic order.
abbrev pub Before : List ℕ → List ℕ → Type 0
Before [] [] = ⊥
Before [] (y ∷ ys) = Unit {0}
Before (x ∷ xs) [] = ⊥
Before (x ∷ xs) (y ∷ ys) = (x < y) ⊎ ((x ≡ y) × Before xs ys)

pub data Comparison (a b : List ℕ) : Type 0 where
  less : Before a b → Comparison a b
  equal : a ≡ b → Comparison a b
  greater : Before b a → Comparison a b

after_equal : {x y : ℕ} {xs ys : List ℕ} → x ≡ y → Comparison xs ys → Comparison (x ∷ xs) (y ∷ ys)
after_equal e (less b) = less (inr (e, b))
after_equal e (equal p) = equal (ap₂ (λ h t. h ∷ t) e p)
after_equal e (greater b) = greater (inr (sym e, b))

-- `Ord::cmp` of two arrays.
unfoldable pub cmp : (a b : List ℕ) → Comparison a b
unfolding after_equal
cmp [] [] = equal refl
cmp [] (y ∷ ys) = less tt
cmp (x ∷ xs) [] = greater tt
cmp (x ∷ xs) (y ∷ ys) = elim (dec_lt x y) [
  | yes h ↦ less (inl h)
  | no h ↦ elim (dec_lt y x) [
    | yes g ↦ greater (inl g)
    | no g ↦ after_equal (omega arith) (cmp xs ys)
  ]
]

pub Before-irrefl : (a : List ℕ) → ¬ Before a a
Before-irrefl [] h = h
Before-irrefl (x ∷ xs) (inl h) = omega arith
Before-irrefl (x ∷ xs) (inr (e, h)) = Before-irrefl xs h

pub Before-trans : (a b c : List ℕ) → Before a b → Before b c → Before a c
Before-trans [] [] c p q = absurd p
Before-trans [] (y ∷ ys) [] p q = absurd q
Before-trans [] (y ∷ ys) (z ∷ zs) p q = tt
Before-trans (x ∷ xs) [] c p q = absurd p
Before-trans (x ∷ xs) (y ∷ ys) [] p q = absurd q
Before-trans (x ∷ xs) (y ∷ ys) (z ∷ zs) (inl p) (inl q) = inl (omega arith)
Before-trans (x ∷ xs) (y ∷ ys) (z ∷ zs) (inl p) (inr (e, q)) = inl (omega arith)
Before-trans (x ∷ xs) (y ∷ ys) (z ∷ zs) (inr (e, p)) (inl q) = inl (omega arith)
Before-trans (x ∷ xs) (y ∷ ys) (z ∷ zs) (inr (e, p)) (inr (f, q)) =
    inr (omega arith, Before-trans xs ys zs p q)

pub Before-ne : {a b : List ℕ} → Before a b → ¬ (a ≡ b)
Before-ne {a} {b} h e = Before-irrefl b (subst (λ t. Before t b) e h)

-- `==` of two arrays.
unfoldable pub bytes_discrete : (a b : List ℕ) → Dec (a ≡ b)
unfolding cmp
bytes_discrete a b = elim (cmp a b) [
  | less h ↦ no (Before-ne h)
  | equal e ↦ yes e
  | greater h ↦ no (λ e. Before-ne h (sym e))
]
