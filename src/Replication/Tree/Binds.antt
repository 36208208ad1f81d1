-- ===== src/Replication/Tree/Binds.antt =====
-- The hash of a summary binds the entries under its prefix.
use fractonica.Common.{
  ℕ, zero, suc, ◌+◌, ◌-◌, ◌^◌, ◌≤◌, ◌<◌, ◌≡◌, sym, ap, ◌∙◌, subst, ◌⊎◌, inl, inr, ◌==◌, List, [],
  ◌∷◌, ◌++◌, length, arith, length-append,
}
use fractonica.Common.Members.{Has, length-select_le}
use fractonica.Common.Result.{ok}
use fractonica.Replication.{InventoryEntry, InventoryChild, InventorySummary, InventoryTree}
use fractonica.Replication.Keys.{octal_digit, key_has_prefix}
use fractonica.Replication.Hashes.{digest_parts, bucket_hash, node_hash}
use fractonica.Replication.Hashes.Binds.{Collision, digest_parts-binds}
use fractonica.Replication.Hashes.Lists.{encode_children-binds, Encodes}
use fractonica.Replication.Tree.{child_entries, child_of, summarize_entries, summary}
use fractonica.Replication.Tree.Cases.{
  children_of, summarize_entries-cases, summarize_entries-count, children_loop-Has,
}
use fractonica.Replication.Tree.Accounts.{IsInventory}
use fractonica.Replication.Tree.Navigates.{under, summary-answers}
use fractonica.Replication.Tree.Buckets.{
  IsHashed, IsHashed-select, same_below, bucket_hash-binds, bucket-node,
}
use fractonica.Replication.Tree.Loops.{Below, loop-binds}

module _ (sha256 : List ℕ → List ℕ) (size : (bytes : List ℕ) → length (sha256 bytes) ≡ 32)
    (namespace : List ℕ) where
  length-hash :
      (prefix : List ℕ) (entries : List InventoryEntry)
      → length prefix ≤ 86
      → length (summarize_entries sha256 namespace prefix entries).hash ≡ 32
  unfolding bucket_hash node_hash digest_parts
  length-hash prefix entries h = elim (summarize_entries-cases sha256 namespace prefix entries h) [
    | inl (_, e) ↦ ap (λ s. length s.hash) e ∙ of_bucket entries
    | inr (_, _, e) ↦ ap (λ s. length s.hash) e ∙ size _
  ]
    where
      of_bucket : (es : List InventoryEntry) → length (bucket_hash sha256 namespace prefix es) ≡ 32
      of_bucket [] = size _
      of_bucket (x ∷ xs) = size _

  children-Encodes :
      (prefix : List ℕ) (entries : List InventoryEntry)
      → length prefix < 86
      → length entries < 2 ^ 64
      → (c : InventoryChild) → Has c (children_of sha256 namespace prefix entries)
      → Encodes c
  children-Encodes prefix entries h few c m =
      let (d, low, high, (at, x, has)) =
        children_loop-Has sha256 namespace (summarize_entries sha256 namespace) 8 0 prefix entries c
          m in
      subst Encodes (sym at) (encodes d)
    where
      deeper : (d : ℕ) → length (prefix ++ (d ∷ [])) ≤ 86
      deeper d = omega (arith, length-append prefix (d ∷ []))

      encodes :
          (d : ℕ)
          → Encodes (
              child_of d (
                summarize_entries sha256 namespace
                  (prefix ++ (d ∷ []))
                  (child_entries (length prefix) d entries)))
      encodes d = record {
        count =
            subst (λ n. n < 2 ^ 64)
              (sym (
                summarize_entries-count sha256 namespace (prefix ++ (d ∷ []))
                  (child_entries (length prefix) d entries) (deeper d)))
              (smaller d);
        hash =
            length-hash (prefix ++ (d ∷ [])) (child_entries (length prefix) d entries) (deeper d);
      }
        where
          smaller : (d : ℕ) → length (child_entries (length prefix) d entries) < 2 ^ 64
          smaller d =
              omega
                (arith, few, length-select_le (λ a. octal_digit a.key (length prefix) == d) entries)

  node_hash-binds :
      (prefix : List ℕ) (xs ys : List InventoryEntry)
      → length prefix < 86
      → IsHashed xs
      → IsHashed ys
      → Below sha256 namespace prefix xs ys
      → node_hash sha256 namespace prefix (length xs) (children_of sha256 namespace prefix xs)
        ≡ node_hash sha256 namespace prefix (length ys) (children_of sha256 namespace prefix ys)
      → (xs ≡ ys) ⊎ Collision sha256
  unfolding node_hash
  node_hash-binds prefix xs ys h v w below e =
      elim (digest_parts-binds sha256 namespace prefix _ _ _ _ v.few w.few e) [
        | inr c ↦ inr c
        | inl (_, encoded) ↦
            elim (loop-binds sha256 namespace 8 0 prefix xs ys v w below (
              encode_children-binds _ _ (children-Encodes prefix xs h v.few)
                (children-Encodes prefix ys h w.few) encoded)) [
                  | inr c ↦ inr c
                  | inl same ↦ inl (
                      same_below (length prefix) xs ys v.sorted w.sorted
                        (λ d g. same d (omega arith) (omega arith)))
                ]
      ]

  by_kind :
      (prefix : List ℕ) (xs ys : List InventoryEntry)
      → length prefix ≤ 86
      → IsHashed xs
      → IsHashed ys
      → (length prefix < 86 → Below sha256 namespace prefix xs ys)
      → (summarize_entries sha256 namespace prefix xs).hash
        ≡ (summarize_entries sha256 namespace prefix ys).hash
      → (xs ≡ ys) ⊎ Collision sha256
  by_kind prefix xs ys h v w below e = elim (summarize_entries-cases sha256 namespace prefix xs h) [
    | inl (small, p) ↦ elim (summarize_entries-cases sha256 namespace prefix ys h) [
      | inl (_, q) ↦ bucket_hash-binds sha256 size namespace prefix xs ys v w (hashes p q)
      | inr (many, above, q) ↦ inr (
          bucket-node sha256 size namespace prefix xs ys v w (few xs small above) many (hashes p q))
    ]
    | inr (many, above, p) ↦ elim (summarize_entries-cases sha256 namespace prefix ys h) [
      | inl (small, q) ↦ inr (
          bucket-node sha256 size namespace prefix ys xs w v (few ys small above) many
            (sym (hashes p q)))
      | inr (_, _, q) ↦ node_hash-binds prefix xs ys above v w (below above) (hashes p q)
    ]
  ]
    where
      hashes :
          {s t : InventorySummary}
          → summarize_entries sha256 namespace prefix xs ≡ s
          → summarize_entries sha256 namespace prefix ys ≡ t
          → s.hash ≡ t.hash
      hashes p q = ap (λ z. z.hash) (sym p) ∙ e ∙ ap (λ z. z.hash) q

      few :
          (es : List InventoryEntry)
          → (length es ≤ 8) ⊎ (length prefix ≡ 86)
          → length prefix < 86
          → length es ≤ 8
      few es (inl h) g = h
      few es (inr h) g = absurd (omega arith)

  hash-binds :
      (left : ℕ) (prefix : List ℕ) (xs ys : List InventoryEntry)
      → left + length prefix ≡ 86
      → IsHashed xs
      → IsHashed ys
      → (summarize_entries sha256 namespace prefix xs).hash
        ≡ (summarize_entries sha256 namespace prefix ys).hash
      → (xs ≡ ys) ⊎ Collision sha256
  hash-binds zero prefix xs ys depth v w e =
      by_kind prefix xs ys (omega arith) v w (λ h. absurd (omega arith)) e
  hash-binds (suc left) prefix xs ys depth v w e =
      by_kind prefix xs ys (omega arith) v w
        (λ h d v' w' e'. hash-binds left (prefix ++ (d ∷ [])) _ _ (deeper d) v' w' e') e
    where
      deeper : (d : ℕ) → left + length (prefix ++ (d ∷ [])) ≡ 86
      deeper d = omega (arith, length-append prefix (d ∷ []))

-- When SHA-256 has digests of 32 bytes, and two sorted trees of one namespace have keys of 32
-- bytes and fewer than 2 ^ 64 entries each, two summaries of one prefix with equal hashes are of
-- trees with the same entries under that prefix, or two different inputs with one digest are
-- found.
pub summary-binds :
    (sha256 : List ℕ → List ℕ) (t u : InventoryTree) (prefix : List ℕ) (r s : InventorySummary)
    → ((bytes : List ℕ) → length (sha256 bytes) ≡ 32)
    → IsInventory t
    → IsInventory u
    → length t.entries < 2 ^ 64
    → length u.entries < 2 ^ 64
    → t.namespace ≡ u.namespace
    → summary sha256 t prefix ≡ ok r
    → summary sha256 u prefix ≡ ok s
    → r.hash ≡ s.hash
    → (under t prefix ≡ under u prefix) ⊎ Collision sha256
summary-binds sha256 t u prefix r s size v w few_t few_u same is_r is_s e =
    let (path, at_r) = summary-answers sha256 t prefix r is_r in
    let (_, at_s) = summary-answers sha256 u prefix s is_s in
    hash-binds sha256 size t.namespace (86 - length prefix) prefix (under t prefix) (under u prefix)
      (omega (arith, path.at_most)) (hashed t v few_t) (hashed u w few_u)
      (ap (λ z. z.hash) at_r
        ∙ e
        ∙ sym (ap (λ z. z.hash) at_s)
        ∙ ap (λ n. (summarize_entries sha256 n prefix (under u prefix)).hash) (sym same))
  where
    hashed :
        (tree : InventoryTree)
        → IsInventory tree
        → length tree.entries < 2 ^ 64
        → IsHashed (under tree prefix)
    hashed tree v few =
        IsHashed-select (λ a. key_has_prefix a.key prefix) tree.entries
          (record { sorted = v.sorted; arrays = λ a h. (v.arrays a h).size; few = few })
