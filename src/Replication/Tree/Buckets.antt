-- ===== src/Replication/Tree/Buckets.antt =====
-- The hashes of buckets bind their entries, and lists are bound by what is below each digit.
use fractonica.Common.{
  ℕ, ◌^◌, ◌≤◌, ◌<◌, ◌≡◌, refl, sym, subst, ◌⊎◌, inl, inr, Bool, ◌==◌, List, [], ◌∷◌, length, arith,
  ==_iff,
}
use fractonica.Common.Members.{Has, select, select_sound, select_complete, length-select_le}
use fractonica.Replication.{InventoryEntry}
use fractonica.Replication.Build.Sorted.{IsSorted, IsSorted-ext}
use fractonica.Replication.Keys.{octal_digit}
use fractonica.Replication.Keys.Places.{octal_digit-small}
use fractonica.Replication.Hashes.{bucket_hash, node_hash}
use fractonica.Replication.Hashes.Binds.{Collision, digest_parts-binds, empty_domain-binds}
use fractonica.Replication.Hashes.Lists.{leaves-binds}
use fractonica.Replication.Tree.{child_entries}
use fractonica.Replication.Tree.Cases.{children_of}
use fractonica.Replication.Tree.Accounts.{select-IsSorted}

-- Entries that can be hashed: sorted, with keys of 32 bytes, and no more than a `u64` counts.
pub record IsHashed (xs : List InventoryEntry) : Type 0 where
  pub sorted : IsSorted xs
  pub arrays : (e : InventoryEntry) → Has e xs → length e.key ≡ 32
  pub few : length xs < 2 ^ 64

pub IsHashed-select :
    (test : InventoryEntry → Bool) (xs : List InventoryEntry)
    → IsHashed xs
    → IsHashed (select test xs)
IsHashed-select test xs v = record {
  sorted = select-IsSorted test xs v.sorted;
  arrays = λ e h. v.arrays e (select_sound test e xs h).0;
  few = omega (arith, v.few, length-select_le test xs);
}

-- Lists with the same entries below each digit are the same.
pub same_below :
    (depth : ℕ) (xs ys : List InventoryEntry)
    → IsSorted xs
    → IsSorted ys
    → ((d : ℕ) → d < 8 → child_entries depth d xs ≡ child_entries depth d ys)
    → xs ≡ ys
same_below depth xs ys s t same =
    IsSorted-ext xs ys s t (λ a. (moves xs ys same a, moves ys xs (λ d h. sym (same d h)) a))
  where
    moves :
        (us vs : List InventoryEntry)
        → ((d : ℕ) → d < 8 → child_entries depth d us ≡ child_entries depth d vs)
        → (a : InventoryEntry) → Has a us
        → Has a vs
    moves us vs same a h =
        (select_sound (λ e. octal_digit e.key depth == octal_digit a.key depth) a vs
          (subst (Has a) (same (octal_digit a.key depth) (octal_digit-small a.key depth)) (
            select_complete (λ e. octal_digit e.key depth == octal_digit a.key depth) a us h
              ((==_iff (octal_digit a.key depth) (octal_digit a.key depth)).1 refl)))).0

module _ (sha256 : List ℕ → List ℕ) (size : (bytes : List ℕ) → length (sha256 bytes) ≡ 32)
    (namespace : List ℕ) where
  pub bucket_hash-binds :
      (prefix : List ℕ) (xs ys : List InventoryEntry)
      → IsHashed xs
      → IsHashed ys
      → bucket_hash sha256 namespace prefix xs ≡ bucket_hash sha256 namespace prefix ys
      → (xs ≡ ys) ⊎ Collision sha256
  unfolding bucket_hash
  bucket_hash-binds prefix [] [] v w e = inl refl
  bucket_hash-binds prefix [] (y ∷ ys) v w e =
      inr (empty_domain-binds sha256 namespace prefix _ _ e)
  bucket_hash-binds prefix (x ∷ xs) [] v w e =
      inr (empty_domain-binds sha256 namespace prefix _ _ (sym e))
  bucket_hash-binds prefix (x ∷ xs) (y ∷ ys) v w e =
      elim (digest_parts-binds sha256 namespace prefix _ _ _ _ v.few w.few e) [
        | inr c ↦ inr c
        | inl (counts, payload) ↦
            leaves-binds sha256 size namespace (x ∷ xs) (y ∷ ys) counts v.arrays w.arrays payload
      ]

  -- A bucket of at most eight entries is no node of more.
  pub bucket-node :
      (prefix : List ℕ) (xs ys : List InventoryEntry)
      → IsHashed xs
      → IsHashed ys
      → length xs ≤ 8
      → 8 < length ys
      → bucket_hash sha256 namespace prefix xs
        ≡ node_hash sha256 namespace prefix (length ys) (children_of sha256 namespace prefix ys)
      → Collision sha256
  unfolding bucket_hash node_hash
  bucket-node prefix [] ys v w small many e = empty_domain-binds sha256 namespace prefix _ _ e
  bucket-node prefix (x ∷ xs) ys v w small many e =
      elim (digest_parts-binds sha256 namespace prefix _ _ _ _ v.few w.few e) [
        | inr c ↦ c
        | inl (counts, payload) ↦ absurd (omega arith)
      ]
