-- ===== src/Replication/Tree/Cases.antt =====
-- The two kinds of summaries, and the children of a node.
use fractonica.Common.{
  ℕ, zero, suc, ◌+◌, ◌≤◌, ◌<◌, ◌≡◌, refl, sym, ap, ap₂, ◌∙◌, subst, ◌⊎◌, inl, inr, Bool, true,
  false, ◌&&◌, ◌||◌, ◌==◌, leb, if◌then◌else◌, List, [], ◌∷◌, ◌++◌, length, arith, Bool-cases,
}
use fractonica.Common.Members.{Has, select}
use fractonica.Replication.{InventoryEntry, InventoryChild, InventorySummary}
use fractonica.Replication.Keys.{octal_digit, key_has_prefix}
use fractonica.Replication.Keys.Prefixes.{key_has_prefix-snoc}
use fractonica.Replication.Hashes.{bucket_hash, node_hash}
use fractonica.Replication.Tree.{
  child_entries, child_of, is_empty, children_loop, summarize_body, summarize_entries,
}
use fractonica.Replication.Tree.Equation.{summarize_entries-body}

select-&& :
    {A : Type 0} (f g : A → Bool) (xs : List A)
    → select (λ x. f x && g x) xs ≡ select g (select f xs)
select-&& f g [] = refl
select-&& f g (x ∷ xs) =
    ap (λ rest. if f x && g x then x ∷ rest else rest) (select-&& f g xs) ∙ by_test (f x) (g x) refl
  where
    by_test :
        (b c : Bool)
        → g x ≡ c
        → (if b && c then x ∷ select g (select f xs) else select g (select f xs))
          ≡ select g (if b then x ∷ select f xs else select f xs)
    by_test true c e = rw e refl
    by_test false c e = refl

select-cong :
    {A : Type 0} (f g : A → Bool) (xs : List A) → ((x : A) → f x ≡ g x) → select f xs ≡ select g xs
select-cong f g [] same = refl
select-cong f g (x ∷ xs) same =
    ap₂ (λ b rest. if b then x ∷ rest else rest) (same x) (select-cong f g xs same)

-- The entries under a prefix that is longer by one digit.
pub entries_below :
    (prefix : List ℕ) (d : ℕ) (entries : List InventoryEntry)
    → select (λ e. key_has_prefix e.key (prefix ++ (d ∷ []))) entries
      ≡ child_entries (length prefix) d (select (λ e. key_has_prefix e.key prefix) entries)
entries_below prefix d entries =
    select-cong (λ e. key_has_prefix e.key (prefix ++ (d ∷ [])))
      (λ e. key_has_prefix e.key prefix && (octal_digit e.key (length prefix) == d)) entries
      (λ e. key_has_prefix-snoc e.key prefix d)
    ∙ select-&& (λ e. key_has_prefix e.key prefix) (λ e. octal_digit e.key (length prefix) == d)
        entries

module _ (sha256 : List ℕ → List ℕ) (namespace : List ℕ) where
  -- The two summaries that the body chooses from.
  abbrev pub bucket : List ℕ → List InventoryEntry → InventorySummary
  bucket prefix entries = record {
    prefix = prefix;
    count = length entries;
    hash = bucket_hash sha256 namespace prefix entries;
    children = [];
    entries = entries;
  }

  abbrev pub children_of : List ℕ → List InventoryEntry → List InventoryChild
  children_of prefix entries =
      children_loop sha256 namespace (summarize_entries sha256 namespace) 8 0 prefix entries

  abbrev pub node : List ℕ → List InventoryEntry → InventorySummary
  node prefix entries = record {
    prefix = prefix;
    count = length entries;
    hash = node_hash sha256 namespace prefix (length entries) (children_of prefix entries);
    children = children_of prefix entries;
    entries = [];
  }

  pub summarize_entries-cases :
      (prefix : List ℕ) (entries : List InventoryEntry)
      → length prefix ≤ 86
      → (((length entries ≤ 8) ⊎ (length prefix ≡ 86))
          × (summarize_entries sha256 namespace prefix entries ≡ bucket prefix entries))
        ⊎ ((8 < length entries)
            × (length prefix < 86)
            × (summarize_entries sha256 namespace prefix entries ≡ node prefix entries))
  unfolding summarize_body
  summarize_entries-cases prefix entries h =
      elim (Bool-cases (leb (length entries) 8 || (length prefix == 86))) [
        | inl t ↦ inl (
          stops (length entries) (length prefix) t,
          summarize_entries-body sha256 namespace prefix entries h ∙ rw t refl,
        )
        | inr f ↦ inr (
          many (length entries) (length prefix) f,
          above (length entries) (length prefix) h f,
          summarize_entries-body sha256 namespace prefix entries h ∙ rw f refl,
        )
      ]
    where
      stops : (n m : ℕ) → (leb n 8 || (m == 86)) ≡ true → (n ≤ 8) ⊎ (m ≡ 86)
      stops n m t = ground arith

      many : (n m : ℕ) → (leb n 8 || (m == 86)) ≡ false → 8 < n
      many n m f = ground arith

      above : (n m : ℕ) → m ≤ 86 → (leb n 8 || (m == 86)) ≡ false → m < 86
      above n m h f = ground arith

  -- Every summary has the number of its entries for its count.
  pub summarize_entries-count :
      (prefix : List ℕ) (entries : List InventoryEntry)
      → length prefix ≤ 86
      → (summarize_entries sha256 namespace prefix entries).count ≡ length entries
  summarize_entries-count prefix entries h = elim (summarize_entries-cases prefix entries h) [
    | inl (_, e) ↦ ap (λ s. s.count) e
    | inr (_, _, e) ↦ ap (λ s. s.count) e
  ]

  module _ (recurse : List ℕ → List InventoryEntry → InventorySummary) where
    -- What a child of the loop is.
    abbrev pub ChildAt : ℕ → List ℕ → List InventoryEntry → InventoryChild → Type 0
    ChildAt d prefix entries c =
        (c ≡ child_of d (recurse (prefix ++ (d ∷ [])) (child_entries (length prefix) d entries)))
        × (e : InventoryEntry) × Has e (child_entries (length prefix) d entries)

    pub children_loop-Has :
        (left digit : ℕ) (prefix : List ℕ) (entries : List InventoryEntry) (c : InventoryChild)
        → Has c (children_loop sha256 namespace recurse left digit prefix entries)
        → (d : ℕ) × (digit ≤ d) × (d < digit + left) × ChildAt d prefix entries c
    unfolding children_loop
    children_loop-Has zero digit prefix entries c h = absurd h
    children_loop-Has (suc left) digit prefix entries c h =
        by_emptiness (child_entries (length prefix) digit entries) refl
          (children_loop-Has left (digit + 1) prefix entries c) h
      where
        by_emptiness :
            (below : List InventoryEntry)
            → child_entries (length prefix) digit entries ≡ below
            → (Has c (children_loop sha256 namespace recurse left (digit + 1) prefix entries)
                → (d : ℕ) × (digit + 1 ≤ d) × (d < digit + 1 + left) × ChildAt d prefix entries c)
            → Has c (
                if is_empty below
                then children_loop sha256 namespace recurse left (digit + 1) prefix entries
                else child_of digit (recurse (prefix ++ (digit ∷ [])) below)
                  ∷ children_loop sha256 namespace recurse left (digit + 1) prefix entries)
            → (d : ℕ) × (digit ≤ d) × (d < digit + suc left) × ChildAt d prefix entries c
        by_emptiness [] e rest m = let (d, p, q, at) = rest m in (d, omega arith, omega arith, at)
        by_emptiness (x ∷ xs) e rest (inl m) = (
          digit,
          omega arith,
          omega arith,
          (
            m ∙ ap (λ es. child_of digit (recurse (prefix ++ (digit ∷ [])) es)) (sym e),
            x,
            subst (Has x) (sym e) (inl refl),
          ),
        )
        by_emptiness (x ∷ xs) e rest (inr m) =
            let (d, p, q, at) = rest m in (d, omega arith, omega arith, at)
