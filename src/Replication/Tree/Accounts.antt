-- ===== src/Replication/Tree/Accounts.antt =====
-- What a summary accounts for: the entries under its prefix, in a bucket that is small enough to be sent
-- at once or by the counts of its children.
use fractonica.Common.{
  ℕ, zero, suc, ◌+◌, ◌≤◌, ◌<◌, ◌≡◌, refl, sym, ap, ◌∙◌, subst, ◌⊎◌, inl, inr, Bool, true, false,
  ◌&&◌, ◌==◌, if◌then◌else◌, List, [], ◌∷◌, length, get_or, arith, ==_iff,
}
use fractonica.Common.Members.{Has, select, select_sound}
use fractonica.Common.Result.{ok}
use fractonica.Replication.{InventoryEntry, InventorySummary, InventoryTree}
use fractonica.Common.Arrays.{IsArray}
use fractonica.Replication.Bytes.{Before-ne}
use fractonica.Replication.Build.{build}
use fractonica.Replication.Build.Collects.{Builds, build-Builds}
use fractonica.Replication.Build.Sorted.{IsSorted}
use fractonica.Replication.Keys.{octal_digit, agrees, key_has_prefix}
use fractonica.Replication.Keys.Places.{octal_digit-determines}
use fractonica.Replication.Tree.{summary}
use fractonica.Replication.Tree.Cases.{summarize_entries-cases}
use fractonica.Replication.Tree.Navigates.{under, summary-answers}
use fractonica.Replication.Tree.Counts.{sum_counts, sum_counts-children_of}

-- A tree as `build` makes it, of keys of 32 bytes.
pub record IsInventory (tree : InventoryTree) : Type 0 where
  pub sorted : IsSorted tree.entries
  pub arrays : (e : InventoryEntry) → Has e tree.entries → IsArray 32 e.key

pub build-IsInventory :
    (namespace : List ℕ) (entries : List InventoryEntry) (tree : InventoryTree)
    → ((e : InventoryEntry) → Has e entries → IsArray 32 e.key)
    → build namespace entries ≡ ok tree
    → IsInventory tree
build-IsInventory namespace entries tree arrays built =
    let (_, _, _, sorted, same) =
      subst (Builds namespace entries) built (build-Builds namespace entries) in
    record { sorted = sorted; arrays = λ e h. arrays e ((same e).0 h) }

pub select-IsSorted :
    (test : InventoryEntry → Bool) (xs : List InventoryEntry)
    → IsSorted xs
    → IsSorted (select test xs)
select-IsSorted test [] s = s
select-IsSorted test (x ∷ xs) s = by_test (test x) (select-IsSorted test xs s.1)
  where
    by_test :
        (b : Bool)
        → IsSorted (select test xs)
        → IsSorted (if b then x ∷ select test xs else select test xs)
    by_test true rest = (λ y h. s.0 y (select_sound test y xs h).0, rest)
    by_test false rest = rest

agrees-digit :
    (key : List ℕ) (depth : ℕ) (prefix : List ℕ) (d : ℕ)
    → agrees key depth prefix ≡ true
    → d < length prefix
    → octal_digit key (depth + d) ≡ get_or prefix d 0
unfolding agrees
agrees-digit key depth [] d h g = absurd (omega arith)
agrees-digit key depth (x ∷ prefix) zero h g =
    ap (octal_digit key) (add_zero depth)
    ∙ (==_iff (octal_digit key depth) x).0
        (first (octal_digit key depth == x) (agrees key (depth + 1) prefix) h)
  where
    add_zero : (n : ℕ) → n + 0 ≡ n
    add_zero n = omega arith

    first : (a b : Bool) → (a && b) ≡ true → a ≡ true
    first true b h = refl
    first false b h = h
agrees-digit key depth (x ∷ prefix) (suc d) h g =
    ap (octal_digit key) (shift depth d)
    ∙ agrees-digit key (depth + 1) prefix d
        (second (octal_digit key depth == x) (agrees key (depth + 1) prefix) h) (omega arith)
  where
    shift : (n d : ℕ) → n + suc d ≡ n + 1 + d
    shift n d = omega arith

    second : (a b : Bool) → (a && b) ≡ true → b ≡ true
    second true b h = h
    second false b h = absurd cc

-- Keys under the same prefix have its digits.
same_digits :
    (a b prefix : List ℕ)
    → key_has_prefix a prefix ≡ true
    → key_has_prefix b prefix ≡ true
    → (d : ℕ) → d < length prefix
    → octal_digit a d ≡ octal_digit b d
unfolding key_has_prefix
same_digits a b prefix p q d h =
    ap (octal_digit a) (sym (zero_add d))
    ∙ agrees-digit a 0 prefix d p h
    ∙ sym (agrees-digit b 0 prefix d q h)
    ∙ ap (octal_digit b) (zero_add d)
  where
    zero_add : (n : ℕ) → 0 + n ≡ n
    zero_add n = omega arith

-- A sorted list of one key has at most one entry.
one_key :
    (xs : List InventoryEntry)
    → IsSorted xs
    → ((a b : InventoryEntry) → Has a xs → Has b xs → a.key ≡ b.key)
    → length xs ≤ 1
one_key [] s same = omega arith
one_key (x ∷ []) s same = omega arith
one_key (x ∷ y ∷ xs) s same =
    absurd (Before-ne (s.0 y (inl refl)) (same x y (inl refl) (inr (inl refl))))

deepest_bucket :
    (tree : InventoryTree) (prefix : List ℕ)
    → IsInventory tree
    → length prefix ≡ 86
    → length (under tree prefix) ≤ 1
deepest_bucket tree prefix v deep =
    one_key (under tree prefix)
      (select-IsSorted (λ e. key_has_prefix e.key prefix) tree.entries v.sorted) same
  where
    same :
        (a b : InventoryEntry)
        → Has a (under tree prefix)
        → Has b (under tree prefix)
        → a.key ≡ b.key
    same a b p q =
        let (in_a, at_a) = select_sound (λ e. key_has_prefix e.key prefix) a tree.entries p in
        let (in_b, at_b) = select_sound (λ e. key_has_prefix e.key prefix) b tree.entries q in
        octal_digit-determines a.key b.key (v.arrays a in_a) (v.arrays b in_b)
          (λ d h. same_digits a.key b.key prefix at_a at_b d (omega (arith, deep)))

-- A summary of the given entries.
abbrev pub Accounts : List InventoryEntry → InventorySummary → Type 0
Accounts entries s =
    (s.count ≡ length entries)
    × (((s.children ≡ []) × (s.entries ≡ entries) × (s.count ≤ 8))
        ⊎ ((s.entries ≡ []) × (8 < s.count) × (sum_counts s.children ≡ s.count)))

-- The summary of a sorted tree with keys of 32 bytes counts the entries under its prefix: it is a
-- bucket of exactly these, at most 8, without children; or it has no entries of its own, counts
-- more than 8, and the counts of its children add up to its count.
pub summary-Accounts :
    (sha256 : List ℕ → List ℕ) (tree : InventoryTree) (prefix : List ℕ) (s : InventorySummary)
    → IsInventory tree
    → summary sha256 tree prefix ≡ ok s
    → Accounts (under tree prefix) s
summary-Accounts sha256 tree prefix s v h =
    let (path, e) = summary-answers sha256 tree prefix s h in
    elim (summarize_entries-cases sha256 tree.namespace prefix (under tree prefix) path.at_most) [
      | inl (small, b) ↦
          subst (Accounts (under tree prefix)) (sym b ∙ e) (refl, inl (refl, refl, at_most small))
      | inr (many, above, n) ↦ subst (Accounts (under tree prefix)) (sym n ∙ e) (
        refl,
        inr (
          refl,
          many,
          sum_counts-children_of sha256 tree.namespace prefix (under tree prefix) above,
        ),
      )
    ]
  where
    at_most :
        (length (under tree prefix) ≤ 8) ⊎ (length prefix ≡ 86) → length (under tree prefix) ≤ 8
    at_most (inl h) = h
    at_most (inr deep) = omega (arith, deepest_bucket tree prefix v deep)
