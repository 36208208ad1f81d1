-- ===== src/Replication/Build.antt =====
-- `InventoryTree::build`. The BTreeMap is the list of its entries in the order of the keys.
pub mod Sorted
pub mod Lookup
pub mod Collects
use fractonica.Common.{
  ℕ, Bool, true, false, ◌||◌, ◌==◌, ltb, List, [], ◌∷◌, length, Option, none, some,
}
use fractonica.Common.Result.{Result, ok, err, ◌>>=◌, ◌>>◌, refuse}
use fractonica.Replication.{
  InventoryEntry, InventoryTree, InventoryError, invalid_namespace, conflicting_entry,
  max_namespace_bytes,
}
use fractonica.Replication.Bytes.{cmp, less, equal, greater, bytes_discrete}

-- The value of a key.
unfoldable pub lookup : List ℕ → List InventoryEntry → Option (List ℕ)
unfolding cmp
lookup key [] = none
lookup key (x ∷ xs) = elim (cmp key x.key) [
  | less _ ↦ none
  | equal _ ↦ some x.value_digest
  | greater _ ↦ lookup key xs
]

-- `BTreeMap::insert`, which returns what `lookup` finds before.
unfoldable pub insert : InventoryEntry → List InventoryEntry → List InventoryEntry
unfolding cmp
insert entry [] = entry ∷ []
insert entry (x ∷ xs) = elim (cmp entry.key x.key) [
  | less _ ↦ entry ∷ x ∷ xs
  | equal _ ↦ entry ∷ xs
  | greater _ ↦ x ∷ insert entry xs
]

-- `Some(existing)` with `existing != entry.value_digest`
unfoldable pub conflicts : Option (List ℕ) → List ℕ → Bool
unfolding bytes_discrete
conflicts none value_digest = false
conflicts (some existing) value_digest = elim (bytes_discrete existing value_digest) [
  | yes _ ↦ false
  | no _ ↦ true
]

-- `for entry in entries`
unfoldable pub insert_all :
    List InventoryEntry → List InventoryEntry → Result InventoryError (List InventoryEntry)
unfolding lookup insert conflicts
insert_all unique [] = ok unique
insert_all unique (entry ∷ rest) =
    refuse (conflicts (lookup entry.key unique) entry.value_digest) (conflicting_entry entry.key)
    >> insert_all (insert entry unique) rest

unfoldable pub build : List ℕ → List InventoryEntry → Result InventoryError InventoryTree
unfolding insert_all
build namespace entries = do
  refuse ((length namespace == 0) || ltb max_namespace_bytes (length namespace)) invalid_namespace
  unique ← insert_all [] entries
  ok (record { namespace = namespace; entries = unique })
