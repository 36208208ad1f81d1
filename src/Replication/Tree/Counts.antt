-- ===== src/Replication/Tree/Counts.antt =====
-- The counts of the children of a node add up to the count of the node.
use fractonica.Common.{
  ℕ, zero, suc, ◌+◌, ◌≤◌, ◌<◌, ◌≡◌, ◌≢◌, refl, ap₂, ◌∙◌, Bool, true, false, ◌==◌, if◌then◌else◌,
  List, [], ◌∷◌, ◌++◌, length, arith, ℕ_discrete, length-append,
}
use fractonica.Replication.{InventoryEntry, InventoryChild}
use fractonica.Replication.Keys.{octal_digit}
use fractonica.Replication.Keys.Places.{octal_digit-small}
use fractonica.Replication.Tree.{
  child_entries, child_of, is_empty, children_loop, summarize_entries,
}
use fractonica.Replication.Tree.Cases.{children_of, summarize_entries-count}

abbrev pub sum_counts : List InventoryChild → ℕ
sum_counts [] = 0
sum_counts (c ∷ cs) = c.count + sum_counts cs

-- How often a digit is among the `left` digits from one on.
abbrev hits : ℕ → ℕ → ℕ → ℕ
hits zero digit o = 0
hits (suc left) digit o = (if o == digit then 1 else 0) + hits left (digit + 1) o

hits-below : (left digit o : ℕ) → o < digit → hits left digit o ≡ 0
hits-below zero digit o h = refl
hits-below (suc left) digit o h =
    let rest = hits-below left (digit + 1) o (omega arith) in rw rest (other digit o h)
  where
    other : (digit o : ℕ) → o < digit → (if o == digit then 1 else 0) + 0 ≡ 0
    other digit o h = ground arith

hits-once : (left digit o : ℕ) → digit ≤ o → o < digit + left → hits left digit o ≡ 1
hits-once zero digit o h g = absurd (omega arith)
hits-once (suc left) digit o h g = elim (ℕ_discrete o digit) [
  | yes e ↦ rw (hits-below left (digit + 1) o (omega arith)) (here digit o e)
  | no e ↦ rw (hits-once left (digit + 1) o (omega arith) (omega arith)) (other digit o e)
]
  where
    here : (digit o : ℕ) → o ≡ digit → (if o == digit then 1 else 0) + 0 ≡ 1
    here digit o e = ground arith

    other : (digit o : ℕ) → o ≢ digit → (if o == digit then 1 else 0) + 1 ≡ 1
    other digit o e = ground arith

-- The entries below the `left` digits from one on.
abbrev total : ℕ → ℕ → ℕ → List InventoryEntry → ℕ
total zero digit depth entries = 0
total (suc left) digit depth entries =
    length (child_entries depth digit entries) + total left (digit + 1) depth entries

total-nil : (left digit depth : ℕ) → total left digit depth [] ≡ 0
total-nil zero digit depth = refl
total-nil (suc left) digit depth = omega (arith, total-nil left (digit + 1) depth)

total-cons :
    (left digit depth : ℕ) (x : InventoryEntry) (xs : List InventoryEntry)
    → total left digit depth (x ∷ xs)
      ≡ hits left digit (octal_digit x.key depth) + total left digit depth xs
total-cons zero digit depth x xs = omega arith
total-cons (suc left) digit depth x xs =
    omega
      (arith, one_more (octal_digit x.key depth == digit), total-cons left (digit + 1) depth x xs)
  where
    one_more :
        (b : Bool)
        → length (if b then x ∷ child_entries depth digit xs else child_entries depth digit xs)
          ≡ (if b then 1 else 0) + length (child_entries depth digit xs)
    one_more true = omega arith
    one_more false = omega arith

-- Every entry is below one digit.
total-all : (depth : ℕ) (entries : List InventoryEntry) → total 8 0 depth entries ≡ length entries
total-all depth [] = total-nil 8 0 depth
total-all depth (x ∷ xs) =
    total-cons 8 0 depth x xs
    ∙ ap₂ (λ a b. a + b)
        (hits-once 8 0 (octal_digit x.key depth) (omega arith)
          (omega (arith, octal_digit-small x.key depth)))
        (total-all depth xs)
    ∙ omega arith

module _ (sha256 : List ℕ → List ℕ) (namespace : List ℕ) where
  sum_counts-loop :
      (left digit : ℕ) (prefix : List ℕ) (entries : List InventoryEntry)
      → length prefix < 86
      → sum_counts (
          children_loop sha256 namespace
            (summarize_entries sha256 namespace)
            left
            digit
            prefix
            entries)
        ≡ total left digit (length prefix) entries
  unfolding children_loop
  sum_counts-loop zero digit prefix entries h = refl
  sum_counts-loop (suc left) digit prefix entries h =
      by_emptiness (child_entries (length prefix) digit entries) _
        (sum_counts-loop left (digit + 1) prefix entries h)
    where
      deeper : length (prefix ++ (digit ∷ [])) ≤ 86
      deeper = omega (arith, length-append prefix (digit ∷ []))

      by_emptiness :
          (below : List InventoryEntry) (cs : List InventoryChild) {n : ℕ}
          → sum_counts cs ≡ n
          → sum_counts (
              if is_empty below
              then cs
              else child_of digit
                  (summarize_entries sha256 namespace (prefix ++ (digit ∷ [])) below)
                ∷ cs)
            ≡ length below + n
      by_emptiness [] cs e = omega arith
      by_emptiness (x ∷ xs) cs e =
          ap₂ (λ a b. a + b)
            (summarize_entries-count sha256 namespace (prefix ++ (digit ∷ [])) (x ∷ xs) deeper) e

  -- The counts of a node's children add up to the node's.
  pub sum_counts-children_of :
      (prefix : List ℕ) (entries : List InventoryEntry)
      → length prefix < 86
      → sum_counts (children_of sha256 namespace prefix entries) ≡ length entries
  sum_counts-children_of prefix entries h =
      sum_counts-loop 8 0 prefix entries h ∙ total-all (length prefix) entries
