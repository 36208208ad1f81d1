-- ===== src/Common/Members.antt =====
-- Membership in a list as a choice of a place, which can be split on, and lists filtered by a test.
use fractonica.Common.{
  ◌≤◌, ◌≡◌, refl, ap, sym, ◌∙◌, ◌⊎◌, inl, inr, Bool, true, false, List, [], ◌∷◌, length,
  if◌then◌else◌, arith, Bool-cases,
}

abbrev pub Has : {A : Type 0} → A → List A → Type 0
Has a [] = ⊥
Has a (x ∷ xs) = (a ≡ x) ⊎ Has a xs

-- `filter`
abbrev pub select {ℓ} : {A : Type ℓ} → (A → Bool) → List A → List A
select test [] = []
select test (x ∷ xs) = let rest = select test xs in if test x then x ∷ rest else rest

module _ {A : Type 0} (test : A → Bool) where
  keep : (a x : A) (xs : List A) (b : Bool) → Has a xs → Has a (if b then x ∷ xs else xs)
  keep a x xs true h = inr h
  keep a x xs false h = h

  kept :
      (a x : A) (xs : List A) (b : Bool)
      → Has a (if b then x ∷ xs else xs)
      → ((a ≡ x) × (b ≡ true)) ⊎ Has a xs
  kept a x xs true (inl e) = inl (e, refl)
  kept a x xs true (inr h) = inr h
  kept a x xs false h = inr h

  pub select_sound : (a : A) (xs : List A) → Has a (select test xs) → Has a xs × (test a ≡ true)
  select_sound a [] h = absurd h
  select_sound a (x ∷ xs) h = elim (kept a x (select test xs) (test x) h) [
    | inl (e, t) ↦ (inl e, ap test e ∙ t)
    | inr m ↦ (inr (select_sound a xs m).0, (select_sound a xs m).1)
  ]

  pub select_complete : (a : A) (xs : List A) → Has a xs → test a ≡ true → Has a (select test xs)
  select_complete a [] h t = h
  select_complete a (x ∷ xs) (inl e) t = rw (sym (ap test e) ∙ t) (inl e)
  select_complete a (x ∷ xs) (inr h) t =
      keep a x (select test xs) (test x) (select_complete a xs h t)

  pub length-select_le : (xs : List A) → length (select test xs) ≤ length xs
  length-select_le [] = omega arith
  length-select_le (x ∷ xs) = elim (Bool-cases (test x)) [
    | inl t ↦ rw t (omega (arith, length-select_le xs))
    | inr t ↦ rw t (omega (arith, length-select_le xs))
  ]
