-- ===== src/Replication/Tree.antt =====
-- The tree: `summary`, `root` and `summarize_entries`. The recursive call of `summarize_entries` is a
-- parameter of its body, and the rounds that are left to the greatest depth are its fuel.
pub mod Equation
pub mod Cases
pub mod Navigates
pub mod Counts
pub mod Accounts
pub mod Buckets
pub mod Loops
pub mod Binds
use fractonica.Common.{
  ℕ, zero, suc, ◌+◌, ◌-◌, Bool, true, false, ◌||◌, ◌==◌, leb, if◌then◌else◌, List, [], ◌∷◌, ◌++◌,
  length, Option, none, some,
}
use fractonica.Common.Members.{select}
use fractonica.Common.Result.{Result, ok, err, ◌>>=◌, ◌>>◌}
use fractonica.Replication.{
  InventoryEntry, InventoryChild, InventorySummary, InventoryTree, InventoryError, bucket_capacity,
  max_octal_depth, radix,
}
use fractonica.Replication.Keys.{octal_digit, key_has_prefix, validate_prefix}
use fractonica.Replication.Hashes.{bucket_hash, node_hash}

-- The entries below one digit, past a prefix of the given depth.
abbrev pub child_entries : ℕ → ℕ → List InventoryEntry → List InventoryEntry
child_entries depth digit entries = select (λ entry. octal_digit entry.key depth == digit) entries

abbrev pub child_of : ℕ → InventorySummary → InventoryChild
child_of digit child = record { digit = digit; count = child.count; hash = child.hash }

-- `is_empty`
abbrev pub is_empty : List InventoryEntry → Bool
is_empty [] = true
is_empty (_ ∷ _) = false

module _ (sha256 : List ℕ → List ℕ) (namespace : List ℕ) where
  module _ (recurse : List ℕ → List InventoryEntry → InventorySummary) where
    -- `for digit in 0..RADIX`, of which `left` digits are left.
    unfoldable pub children_loop : ℕ → ℕ → List ℕ → List InventoryEntry → List InventoryChild
    children_loop zero digit prefix entries = []
    children_loop (suc left) digit prefix entries =
        let below = child_entries (length prefix) digit entries in
        let rest = children_loop left (digit + 1) prefix entries in
        if is_empty below
        then rest
        else child_of digit (recurse (prefix ++ (digit ∷ [])) below) ∷ rest

    unfoldable pub summarize_body : List ℕ → List InventoryEntry → InventorySummary
    unfolding children_loop
    summarize_body prefix entries =
        if leb (length entries) bucket_capacity || (length prefix == max_octal_depth)
        then record {
          prefix = prefix;
          count = length entries;
          hash = bucket_hash sha256 namespace prefix entries;
          children = [];
          entries = entries;
        }
        else let children = children_loop radix 0 prefix entries in
          record {
            prefix = prefix;
            count = length entries;
            hash = node_hash sha256 namespace prefix (length entries) children;
            children = children;
            entries = [];
          }

  -- Past the greatest depth nothing is called; the rounds never run out before it.
  unfoldable pub summarize_rounds : ℕ → List ℕ → List InventoryEntry → InventorySummary
  unfolding summarize_body
  summarize_rounds zero prefix entries =
      summarize_body
        (λ p e. record { prefix = p; count = 0; hash = []; children = []; entries = [] }) prefix
        entries
  summarize_rounds (suc left) prefix entries = summarize_body (summarize_rounds left) prefix entries

  unfoldable pub summarize_entries : List ℕ → List InventoryEntry → InventorySummary
  unfolding summarize_rounds
  summarize_entries prefix entries =
      summarize_rounds (max_octal_depth - length prefix) prefix entries

module _ (sha256 : List ℕ → List ℕ) where
  unfoldable pub summary : InventoryTree → List ℕ → Result InventoryError InventorySummary
  unfolding summarize_entries
  summary tree prefix = do
    validate_prefix prefix
    ok (
        summarize_entries sha256 tree.namespace prefix
          (select (λ entry. key_has_prefix entry.key prefix) tree.entries))

  -- `expect`, which panics on an error.
  abbrev expect : Result InventoryError InventorySummary → Option InventorySummary
  expect (ok s) = some s
  expect (err _) = none

  unfoldable pub root : InventoryTree → Option InventorySummary
  unfolding summary
  root tree = expect (summary tree [])
