-- ===== src/Replication/Tree/Loops.antt =====
-- Equal children are children of equal entries.
use fractonica.Common.{
  ℕ, zero, suc, ◌+◌, ◌≤◌, ◌<◌, ◌≡◌, ◌≢◌, refl, sym, ap, ◌∙◌, subst, ◌⊎◌, inl, inr, ◌==◌,
  if◌then◌else◌, List, [], ◌∷◌, ◌++◌, length, arith, ℕ_discrete, drop,
}
use fractonica.Common.Members.{Has}
use fractonica.Replication.{InventoryEntry, InventoryChild}
use fractonica.Replication.Keys.{octal_digit}
use fractonica.Replication.Hashes.Binds.{Collision}
use fractonica.Replication.Tree.{
  child_entries, child_of, is_empty, children_loop, summarize_entries,
}
use fractonica.Replication.Tree.Cases.{children_loop-Has}
use fractonica.Replication.Tree.Buckets.{IsHashed, IsHashed-select}

module _ (sha256 : List ℕ → List ℕ) (namespace : List ℕ) where
  -- What is shown of the entries below a prefix that is one digit longer.
  abbrev pub Below : List ℕ → List InventoryEntry → List InventoryEntry → Type 0
  Below prefix xs ys =
      (d : ℕ)
      → IsHashed (child_entries (length prefix) d xs)
      → IsHashed (child_entries (length prefix) d ys)
      → (summarize_entries sha256 namespace (prefix ++ (d ∷ []))
          (child_entries (length prefix) d xs)).hash
        ≡ (summarize_entries sha256 namespace (prefix ++ (d ∷ []))
            (child_entries (length prefix) d ys)).hash
      → (child_entries (length prefix) d xs ≡ child_entries (length prefix) d ys) ⊎ Collision sha256

  abbrev pub loop : ℕ → ℕ → List ℕ → List InventoryEntry → List InventoryChild
  loop left digit prefix entries =
      children_loop sha256 namespace (summarize_entries sha256 namespace) left digit prefix entries

  -- The children of the digits from one on have none of the digits before.
  no_early_child :
      (left digit : ℕ) (prefix : List ℕ) (entries : List InventoryEntry) (c : InventoryChild)
      (cs : List InventoryChild)
      → loop left (digit + 1) prefix entries ≡ c ∷ cs
      → c.digit ≢ digit
  no_early_child left digit prefix entries c cs e is =
      let (d, low, high, (at, x, has)) =
        children_loop-Has sha256 namespace (summarize_entries sha256 namespace) left (digit + 1)
          prefix entries c (subst (Has c) (sym e) (inl refl)) in
      too_low (ap (λ z. z.digit) at) low
    where
      too_low : {d : ℕ} → c.digit ≡ d → digit + 1 ≤ d → ⊥
      too_low p h = omega arith

  pub loop-binds :
      (left digit : ℕ) (prefix : List ℕ) (xs ys : List InventoryEntry)
      → IsHashed xs
      → IsHashed ys
      → Below prefix xs ys
      → loop left digit prefix xs ≡ loop left digit prefix ys
      → ((d : ℕ)
          → digit ≤ d
          → d < digit + left
          → child_entries (length prefix) d xs ≡ child_entries (length prefix) d ys)
        ⊎ Collision sha256
  unfolding children_loop
  loop-binds zero digit prefix xs ys v w below e = inl (λ d h g. absurd (omega arith))
  loop-binds (suc left) digit prefix xs ys v w below e =
      by_emptiness (child_entries (length prefix) digit xs) (child_entries (length prefix) digit ys)
        (below digit (IsHashed-select (λ a. octal_digit a.key (length prefix) == digit) xs v)
          (IsHashed-select (λ a. octal_digit a.key (length prefix) == digit) ys w))
        refl refl (loop-binds left (digit + 1) prefix xs ys v w below) e
    where
      join :
          (child_entries (length prefix) digit xs ≡ child_entries (length prefix) digit ys)
          → ((d : ℕ)
              → digit + 1 ≤ d
              → d < digit + 1 + left
              → child_entries (length prefix) d xs ≡ child_entries (length prefix) d ys)
          → (d : ℕ) → digit ≤ d
          → d < digit + suc left
          → child_entries (length prefix) d xs ≡ child_entries (length prefix) d ys
      join here rest d h g = elim (ℕ_discrete d digit) [
        | yes p ↦
            subst (λ k. child_entries (length prefix) k xs ≡ child_entries (length prefix) k ys)
              (sym p) here
        | no n ↦ rest d (omega arith) (omega arith)
      ]

      Later : Type 0
      Later =
          ((d : ℕ)
            → digit + 1 ≤ d
            → d < digit + 1 + left
            → child_entries (length prefix) d xs ≡ child_entries (length prefix) d ys)
          ⊎ Collision sha256

      finish :
          (child_entries (length prefix) digit xs ≡ child_entries (length prefix) digit ys)
            ⊎ Collision sha256
          → Later
          → ((d : ℕ)
              → digit ≤ d
              → d < digit + suc left
              → child_entries (length prefix) d xs ≡ child_entries (length prefix) d ys)
            ⊎ Collision sha256
      finish (inr c) r = inr c
      finish (inl p) (inr c) = inr c
      finish (inl p) (inl r) = inl (join p r)

      by_emptiness :
          (us vs : List InventoryEntry)
          → ((summarize_entries sha256 namespace (prefix ++ (digit ∷ [])) us).hash
                ≡ (summarize_entries sha256 namespace (prefix ++ (digit ∷ [])) vs).hash
              → (us ≡ vs) ⊎ Collision sha256)
          → child_entries (length prefix) digit xs ≡ us
          → child_entries (length prefix) digit ys ≡ vs
          → (loop left (digit + 1) prefix xs ≡ loop left (digit + 1) prefix ys → Later)
          → (if is_empty us
              then loop left (digit + 1) prefix xs
              else child_of digit (summarize_entries sha256 namespace (prefix ++ (digit ∷ [])) us)
                ∷ loop left (digit + 1) prefix xs)
            ≡ (if is_empty vs
                then loop left (digit + 1) prefix ys
                else child_of digit (summarize_entries sha256 namespace (prefix ++ (digit ∷ [])) vs)
                  ∷ loop left (digit + 1) prefix ys)
          → ((d : ℕ)
              → digit ≤ d
              → d < digit + suc left
              → child_entries (length prefix) d xs ≡ child_entries (length prefix) d ys)
            ⊎ Collision sha256
      by_emptiness [] [] here p q rest e = finish (inl (p ∙ sym q)) (rest e)
      by_emptiness [] (y ∷ vs) here p q rest e =
          absurd (no_early_child left digit prefix xs _ _ e refl)
      by_emptiness (x ∷ us) [] here p q rest e =
          absurd (no_early_child left digit prefix ys _ _ (sym e) refl)
      by_emptiness (x ∷ us) (y ∷ vs) here p q rest e =
          finish (moved (here (ap (λ l. first_hash l) e))) (rest (ap (drop 1) e))
        where
          moved :
              (x ∷ us ≡ y ∷ vs) ⊎ Collision sha256
              → (child_entries (length prefix) digit xs ≡ child_entries (length prefix) digit ys)
                ⊎ Collision sha256
          moved (inl r) = inl (p ∙ r ∙ sym q)
          moved (inr c) = inr c

          first_hash : List InventoryChild → List ℕ
          first_hash [] = []
          first_hash (c ∷ cs) = c.hash
