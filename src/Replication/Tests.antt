-- ===== src/Replication/Tests.antt =====
-- The theorems on inventories at concrete inputs, and runs of the operations.
use fractonica.Common.{
  ◌⊎◌, ℕ, zero, suc, ◌<◌, ◌≡◌, ◌↔◌, refl, sym, inl, inr, List, [], ◌∷◌, replicate, get_or, arith,
  subst, some, dec_lt, map, Bool, true, false, ltb, ltb→lt, ◌&&◌,
}
use fractonica.Common.Members.{Has}
use fractonica.Common.Result.{ok, err}
use fractonica.Replication.{
  InventoryEntry, InventoryTree, InventorySummary, InventoryChild, conflicting_entry,
}
use fractonica.Common.Arrays.{IsArray}
use fractonica.Replication.Bytes.{cmp, bytes_discrete}
use fractonica.Replication.Build.{lookup, insert, conflicts, insert_all, build}
use fractonica.Replication.Build.Collects.{build-Builds, build-same_members, Builds}
use fractonica.Replication.Keys.{
  octal_digit, digit_loop, validate_prefix, key_has_prefix, agrees, any_large, ends_whole,
}
use fractonica.Replication.Keys.Places.{octal_digit-determines}
use fractonica.Replication.Hashes.{
  digest_parts, leaf_hash, leaves, bucket_hash, encode_children, node_hash,
}
use fractonica.Replication.Tree.{
  children_loop, summarize_body, summarize_rounds, summarize_entries, summary, root,
}
use fractonica.Replication.Tree.Equation.{summarize_entries-body}
use fractonica.Replication.Tree.Navigates.{summary-child, under, Promises}
use fractonica.Replication.Tree.Binds.{summary-binds}
use fractonica.Replication.Hashes.Binds.{Collision}
use fractonica.Replication.Tree.Accounts.{
  IsInventory, build-IsInventory, Accounts, summary-Accounts,
}

-- A key with the given first byte.
abbrev key : ℕ → List ℕ
key n = n ∷ replicate 31 0

abbrev entry : ℕ → ℕ → InventoryEntry
entry n value = record { key = key n; value_digest = value ∷ replicate 31 0 }

abbrev namespace : List ℕ
namespace = 111 ∷ []

abbrev two : List InventoryEntry
two = entry 1 1 ∷ entry 2 2 ∷ []

abbrev reversed : List InventoryEntry
reversed = entry 2 2 ∷ entry 1 1 ∷ entry 2 2 ∷ []

two_built : build namespace two ≡ ok (record { namespace = namespace; entries = two })
unfolding build insert_all lookup insert conflicts cmp bytes_discrete dec_lt
two_built = refl

clash : build namespace (entry 1 1 ∷ entry 1 2 ∷ []) ≡ err (conflicting_entry (key 1))
unfolding build insert_all lookup insert conflicts cmp bytes_discrete dec_lt
clash = refl

same_members : (e : InventoryEntry) → Has e two ↔ Has e reversed
same_members e = (over, back)
  where
    over : Has e two → Has e reversed
    over (inl p) = inr (inl p)
    over (inr (inl p)) = inl p
    over (inr (inr h)) = absurd h

    back : Has e reversed → Has e two
    back (inl p) = inr (inl p)
    back (inr (inl p)) = inl p
    back (inr (inr (inl p))) = inr (inl p)
    back (inr (inr (inr h))) = absurd h

build-same_members_example :
    build namespace reversed ≡ ok (record { namespace = namespace; entries = two })
build-same_members_example =
    build-same_members namespace two reversed (record { namespace = namespace; entries = two })
      two_built same_members

build-Builds_example : Builds namespace reversed (build namespace reversed)
build-Builds_example = build-Builds namespace reversed

key-IsArray : (n : ℕ) → n < 256 → IsArray 32 (key n)
key-IsArray n h = record { size = refl; each = each }
  where
    zeros : (k i : ℕ) → get_or (replicate k 0) i 0 < 256
    zeros zero i = omega arith
    zeros (suc k) zero = omega arith
    zeros (suc k) (suc i) = zeros k i

    each : (i : ℕ) → get_or (key n) i 0 < 256
    each zero = h
    each (suc i) = zeros 31 i

octal_digit-determines_example : key 3 ≡ key 3
octal_digit-determines_example =
    octal_digit-determines (key 3) (key 3) (key-IsArray 3 (omega arith))
      (key-IsArray 3 (omega arith)) (λ d h. refl)

-- Stands for SHA-256 where only the size of a digest matters.
abbrev no_hash : List ℕ → List ℕ
no_hash bytes = replicate 32 0

abbrev nine : List InventoryEntry
nine = map (λ n. entry n 7) (0 ∷ 1 ∷ 2 ∷ 3 ∷ 4 ∷ 5 ∷ 6 ∷ 7 ∷ 8 ∷ [])

abbrev all_small : List ℕ → Bool
all_small [] = true
all_small (x ∷ xs) = ltb x 256 && all_small xs

abbrev tree : InventoryTree
tree = record { namespace = namespace; entries = nine }

nine_built : build namespace nine ≡ ok tree
unfolding build insert_all lookup insert conflicts cmp bytes_discrete dec_lt
nine_built = refl

-- All nine keys begin with the digit 0.
abbrev first_child : InventoryChild
first_child = record { digit = 0; count = 9; hash = replicate 32 0 }

abbrev nine_root : InventorySummary
nine_root = record {
  prefix = [];
  count = 9;
  hash = replicate 32 0;
  children = first_child ∷ [];
  entries = [];
}

nine_summary : summary no_hash tree [] ≡ ok nine_root
unfolding summary summarize_entries summarize_rounds summarize_body children_loop bucket_hash
    node_hash encode_children leaves leaf_hash digest_parts validate_prefix any_large ends_whole
    key_has_prefix agrees octal_digit digit_loop
nine_summary = refl

root_nine : root no_hash tree ≡ some nine_root
unfolding root summary summarize_entries summarize_rounds summarize_body children_loop bucket_hash
    node_hash encode_children leaves leaf_hash digest_parts validate_prefix any_large ends_whole
    key_has_prefix agrees octal_digit digit_loop
root_nine = refl

summary-child_example : Promises no_hash tree [] first_child
summary-child_example = summary-child no_hash tree [] nine_root first_child nine_summary (inl refl)

numbered-IsArray :
    (xs : List ℕ)
    → all_small xs ≡ true
    → (e : InventoryEntry) → Has e (map (λ n. entry n 7) xs)
    → IsArray 32 e.key
numbered-IsArray [] h e m = absurd m
numbered-IsArray (x ∷ xs) h e (inl p) =
    subst (λ z. IsArray 32 z.key) (sym p) (key-IsArray x (small (ltb x 256) refl h))
  where
    small : (b : Bool) → ltb x 256 ≡ b → (b && all_small xs) ≡ true → x < 256
    small true t g = ltb→lt x 256 t
    small false t g = absurd cc
numbered-IsArray (x ∷ xs) h e (inr m) = numbered-IsArray xs (rest (ltb x 256) h) e m
  where
    rest : (b : Bool) → (b && all_small xs) ≡ true → all_small xs ≡ true
    rest true g = g
    rest false g = absurd cc

nine-IsInventory : IsInventory tree
nine-IsInventory =
    build-IsInventory namespace nine tree
      (numbered-IsArray (0 ∷ 1 ∷ 2 ∷ 3 ∷ 4 ∷ 5 ∷ 6 ∷ 7 ∷ 8 ∷ []) refl) nine_built

summary-Accounts_example : Accounts (under tree []) nine_root
summary-Accounts_example = summary-Accounts no_hash tree [] nine_root nine-IsInventory nine_summary

summarize_entries-body_example :
    summarize_entries no_hash namespace (0 ∷ []) nine
    ≡ summarize_body no_hash namespace (summarize_entries no_hash namespace) (0 ∷ []) nine
summarize_entries-body_example =
    summarize_entries-body no_hash namespace (0 ∷ []) nine (omega arith)

abbrev small_tree : InventoryTree
small_tree = record { namespace = namespace; entries = two }

small_summary :
    summary no_hash small_tree []
    ≡ ok (record { prefix = []; count = 2; hash = replicate 32 0; children = []; entries = two })
unfolding summary summarize_entries summarize_rounds summarize_body children_loop bucket_hash
    node_hash encode_children leaves leaf_hash digest_parts validate_prefix any_large ends_whole
    key_has_prefix agrees octal_digit digit_loop
small_summary = refl

two-IsInventory : IsInventory small_tree
two-IsInventory = build-IsInventory namespace two small_tree arrays two_built
  where
    arrays : (e : InventoryEntry) → Has e two → IsArray 32 e.key
    arrays e (inl p) = subst (λ z. IsArray 32 z.key) (sym p) (key-IsArray 1 (omega arith))
    arrays e (inr (inl p)) = subst (λ z. IsArray 32 z.key) (sym p) (key-IsArray 2 (omega arith))
    arrays e (inr (inr h)) = absurd h

summary-binds_example : (under tree [] ≡ under small_tree []) ⊎ Collision no_hash
summary-binds_example =
    summary-binds no_hash tree small_tree [] nine_root
      (record { prefix = []; count = 2; hash = replicate 32 0; children = []; entries = two })
      (λ bytes. refl) nine-IsInventory two-IsInventory (omega arith) (omega arith) refl nine_summary
      small_summary refl
