-- ===== src/Replication/Tree/Equation.antt =====
-- `summarize_entries` recurses to its greatest depth without running out of rounds.
use fractonica.Common.{
  ℕ, zero, suc, ◌+◌, ◌-◌, ◌≤◌, ◌≡◌, refl, ap, ap₂, Bool, true, ◌||◌, ◌==◌, leb, if◌then◌else◌, List,
  [], ◌∷◌, ◌++◌, length, arith, length-append,
}
use fractonica.Replication.{InventoryEntry, InventorySummary}
use fractonica.Replication.Tree.{
  child_entries, child_of, is_empty, children_loop, summarize_body, summarize_rounds,
  summarize_entries,
}

module _ (sha256 : List ℕ → List ℕ) (namespace : List ℕ) where
  -- The loop calls only with longer prefixes.
  children_loop-cong :
      (f g : List ℕ → List InventoryEntry → InventorySummary) (left digit : ℕ) (prefix : List ℕ)
      (entries : List InventoryEntry)
      → ((d : ℕ) (e : List InventoryEntry) → f (prefix ++ (d ∷ [])) e ≡ g (prefix ++ (d ∷ [])) e)
      → children_loop sha256 namespace f left digit prefix entries
        ≡ children_loop sha256 namespace g left digit prefix entries
  unfolding children_loop
  children_loop-cong f g zero digit prefix entries same = refl
  children_loop-cong f g (suc left) digit prefix entries same =
      ap₂ (λ rest s. if is_empty below then rest else child_of digit s ∷ rest)
        (children_loop-cong f g left (digit + 1) prefix entries same) (same digit below)
    where
      below : List InventoryEntry
      below = child_entries (length prefix) digit entries

  summarize_body-cong :
      (f g : List ℕ → List InventoryEntry → InventorySummary) (prefix : List ℕ)
      (entries : List InventoryEntry)
      → ((d : ℕ) (e : List InventoryEntry) → f (prefix ++ (d ∷ [])) e ≡ g (prefix ++ (d ∷ [])) e)
      → summarize_body sha256 namespace f prefix entries
        ≡ summarize_body sha256 namespace g prefix entries
  unfolding summarize_body
  summarize_body-cong f g prefix entries same =
      rw (children_loop-cong f g 8 0 prefix entries same) refl

  -- At the greatest depth nothing is called.
  summarize_body-deepest :
      (f g : List ℕ → List InventoryEntry → InventorySummary) (prefix : List ℕ)
      (entries : List InventoryEntry)
      → length prefix ≡ 86
      → summarize_body sha256 namespace f prefix entries
        ≡ summarize_body sha256 namespace g prefix entries
  unfolding summarize_body
  summarize_body-deepest f g prefix entries deep =
      rw (stops (leb (length entries) 8) (length prefix) deep) refl
    where
      stops : (b : Bool) (n : ℕ) → n ≡ 86 → (b || (n == 86)) ≡ true
      stops b n e = ground arith

  by_rounds :
      (rounds : ℕ) (prefix : List ℕ) (entries : List InventoryEntry)
      → 86 - length prefix ≡ rounds
      → length prefix ≤ 86
      → summarize_rounds sha256 namespace rounds prefix entries
        ≡ summarize_body sha256 namespace (summarize_entries sha256 namespace) prefix entries
  unfolding summarize_rounds summarize_entries
  by_rounds zero prefix entries e h =
      summarize_body-deepest
        (λ p e. record { prefix = p; count = 0; hash = []; children = []; entries = [] })
        (summarize_entries sha256 namespace) prefix entries (omega arith)
  by_rounds (suc left) prefix entries e h =
      summarize_body-cong (summarize_rounds sha256 namespace left)
        (summarize_entries sha256 namespace) prefix entries
        (λ d es. ap (λ n. summarize_rounds sha256 namespace n (prefix ++ (d ∷ [])) es) (one_less d))
    where
      one_less : (d : ℕ) → left ≡ 86 - length (prefix ++ (d ∷ []))
      one_less d = omega (arith, length-append prefix (d ∷ []))

  -- For every prefix of at most 86 digits, summarize_entries returns what the body of the
  -- recursive function returns when its recursive calls are calls of summarize_entries, so it
  -- never runs out of rounds.
  pub summarize_entries-body :
      (prefix : List ℕ) (entries : List InventoryEntry)
      → length prefix ≤ 86
      → summarize_entries sha256 namespace prefix entries
        ≡ summarize_body sha256 namespace (summarize_entries sha256 namespace) prefix entries
  unfolding summarize_entries
  summarize_entries-body prefix entries h = by_rounds (86 - length prefix) prefix entries refl h
