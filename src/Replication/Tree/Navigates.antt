-- ===== src/Replication/Tree/Navigates.antt =====
-- Walking down the tree: a child of a summary is the summary of the prefix that is longer by its digit.
use fractonica.Common.{
  ℕ, ◌≤◌, ◌<◌, ◌≡◌, refl, sym, ap, ◌∙◌, subst, ◌⊎◌, inl, inr, true, ◌||◌, ◌==◌, List, [], ◌∷◌, ◌++◌,
  length, arith, ==_iff,
}
use fractonica.Common.Members.{Has, select, select_sound}
use fractonica.Common.Result.{ok, err, Result-cases}
use fractonica.Replication.{
  InventoryEntry, InventoryChild, InventorySummary, InventoryTree, InventoryError,
}
use fractonica.Replication.Keys.{octal_digit, key_has_prefix, validate_prefix}
use fractonica.Replication.Keys.Places.{octal_digit-last}
use fractonica.Replication.Keys.Prefixes.{
  IsPath, IsPath-snoc, IsPath-validate_prefix, validate_prefix-IsPath,
}
use fractonica.Replication.Tree.{child_entries, summarize_entries, summary}
use fractonica.Replication.Tree.Cases.{
  entries_below, node, summarize_entries-cases, summarize_entries-count, children_loop-Has,
}

-- The entries of a tree under a prefix.
abbrev pub under : InventoryTree → List ℕ → List InventoryEntry
under tree prefix = select (λ e. key_has_prefix e.key prefix) tree.entries

module _ (sha256 : List ℕ → List ℕ) where
  summary-ok :
      (tree : InventoryTree) (prefix : List ℕ)
      → IsPath prefix
      → summary sha256 tree prefix
        ≡ ok (summarize_entries sha256 tree.namespace prefix (under tree prefix))
  unfolding summary
  summary-ok tree prefix p = rw (IsPath-validate_prefix prefix p) refl

  pub summary-answers :
      (tree : InventoryTree) (prefix : List ℕ) (s : InventorySummary)
      → summary sha256 tree prefix ≡ ok s
      → IsPath prefix × (summarize_entries sha256 tree.namespace prefix (under tree prefix) ≡ s)
  unfolding summary
  summary-answers tree prefix s h = elim (Result-cases (validate_prefix prefix)) [
    | inl (u, e) ↦ (validate_prefix-IsPath prefix u e, answer u e)
    | inr (x, e) ↦ absurd (refused x e)
  ]
    where
      answer :
          (u : Unit {0})
          → validate_prefix prefix ≡ ok u
          → summarize_entries sha256 tree.namespace prefix (under tree prefix) ≡ s
      answer u e = cc

      refused : (x : InventoryError) → validate_prefix prefix ≡ err x → ⊥
      refused x e = cc

  -- The prefix of a child that has an entry is valid: below the last digit there is one bit left.
  child-IsPath :
      (prefix : List ℕ) (d : ℕ) (entries : List InventoryEntry) (e : InventoryEntry)
      → IsPath prefix
      → length prefix < 86
      → d < 8
      → Has e (child_entries (length prefix) d entries)
      → IsPath (prefix ++ (d ∷ []))
  child-IsPath prefix d entries e path above small m = IsPath-snoc prefix d path above small last
    where
      at_digit : octal_digit e.key (length prefix) ≡ d
      at_digit =
          (==_iff (octal_digit e.key (length prefix)) d).0
            (select_sound (λ x. octal_digit x.key (length prefix) == d) e entries m).1

      last : length prefix ≡ 85 → ((d == 0) || (d == 4)) ≡ true
      last p = zero_or_four d (subst (λ n. (n ≡ 0) ⊎ (n ≡ 4)) here (octal_digit-last e.key))
        where
          here : octal_digit e.key 85 ≡ d
          here = ap (octal_digit e.key) (sym p) ∙ at_digit

          zero_or_four : (d : ℕ) → (d ≡ 0) ⊎ (d ≡ 4) → ((d == 0) || (d == 4)) ≡ true
          zero_or_four d (inl q) = ground arith
          zero_or_four d (inr q) = ground arith

  -- What a child promises of the summary below it.
  abbrev pub Promises : InventoryTree → List ℕ → InventoryChild → Type 0
  Promises tree prefix c =
      (t : InventorySummary) × (summary sha256 tree (prefix ++ (c.digit ∷ [])) ≡ ok t)
      × (t.count ≡ c.count)
      × (t.hash ≡ c.hash)
      × (1 ≤ c.count)

  node_child :
      (tree : InventoryTree) (prefix : List ℕ) (c : InventoryChild)
      → IsPath prefix
      → length prefix < 86
      → Has c (node sha256 tree.namespace prefix (under tree prefix)).children
      → Promises tree prefix c
  node_child tree prefix c path above m =
      let (d, low, high, (is, e, has)) =
        children_loop-Has sha256 tree.namespace (summarize_entries sha256 tree.namespace) 8 0 prefix
          (under tree prefix) c m in
      let longer = child-IsPath prefix d (under tree prefix) e path above (omega arith) has in
      subst (Promises tree prefix) (sym is) (
        summarize_entries sha256 tree.namespace (prefix ++ (d ∷ []))
            (child_entries (length prefix) d (under tree prefix)),
        summary-ok tree (prefix ++ (d ∷ [])) longer
            ∙ ap (λ es. ok (summarize_entries sha256 tree.namespace (prefix ++ (d ∷ [])) es))
                (entries_below prefix d tree.entries),
        refl,
        refl,
        counted d longer (child_entries (length prefix) d (under tree prefix)) (Has-length e _ has),
      )
    where
      Has-length : (e : InventoryEntry) (xs : List InventoryEntry) → Has e xs → 1 ≤ length xs
      Has-length e [] h = absurd h
      Has-length e (x ∷ xs) h = omega arith

      counted :
          (d : ℕ)
          → IsPath (prefix ++ (d ∷ []))
          → (es : List InventoryEntry) → 1 ≤ length es
          → 1 ≤ (summarize_entries sha256 tree.namespace (prefix ++ (d ∷ [])) es).count
      counted d longer es h = omega (
        arith,
        summarize_entries-count sha256 tree.namespace (prefix ++ (d ∷ [])) es longer.at_most,
      )

  -- When a summary is returned, each of its children is the summary of the prefix that is longer
  -- by the digit of the child: that prefix is valid, and its summary has the count, which is
  -- positive, and the hash that the child records.
  pub summary-child :
      (tree : InventoryTree) (prefix : List ℕ) (s : InventorySummary) (c : InventoryChild)
      → summary sha256 tree prefix ≡ ok s
      → Has c s.children
      → Promises tree prefix c
  summary-child tree prefix s c h m =
      let (path, e) = summary-answers tree prefix s h in
      elim (summarize_entries-cases sha256 tree.namespace prefix (under tree prefix) path.at_most) [
        | inl (_, b) ↦ absurd (subst (λ x. Has c x.children) (sym e ∙ b) m)
        | inr (many, above, n) ↦
            node_child tree prefix c path above (subst (λ x. Has c x.children) (sym e ∙ n) m)
      ]
