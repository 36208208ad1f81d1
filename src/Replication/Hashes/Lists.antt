-- ===== src/Replication/Hashes/Lists.antt =====
-- Hashes of many leaves, and encodings of many children, say the same of each of them.
use fractonica.Common.{
  ℕ, suc, ◌^◌, ◌<◌, ◌≡◌, refl, sym, ap, ap₂, ◌∙◌, ◌⊎◌, inl, inr, List, [], ◌∷◌, length, get_or,
  arith, drop,
}
use fractonica.Common.Members.{Has}
use fractonica.Replication.{InventoryEntry, InventoryChild}
use fractonica.Replication.Hashes.{to_be_bytes, leaf_hash, leaves, encode_children}
use fractonica.Replication.Hashes.Binds.{
  append-split, to_be_bytes-eight, Collision, leaf_hash-binds,
}

module _ (sha256 : List ℕ → List ℕ) (size : (bytes : List ℕ) → length (sha256 bytes) ≡ 32)
    (namespace : List ℕ) where
  length-leaf_hash : (e : InventoryEntry) → length (leaf_hash sha256 namespace e) ≡ 32
  unfolding leaf_hash
  length-leaf_hash e = size _

  pub leaves-binds :
      (xs ys : List InventoryEntry)
      → length xs ≡ length ys
      → ((e : InventoryEntry) → Has e xs → length e.key ≡ 32)
      → ((e : InventoryEntry) → Has e ys → length e.key ≡ 32)
      → leaves sha256 namespace xs ≡ leaves sha256 namespace ys
      → (xs ≡ ys) ⊎ Collision sha256
  unfolding leaves
  leaves-binds [] [] s p q e = inl refl
  leaves-binds [] (y ∷ ys) s p q e = absurd (omega arith)
  leaves-binds (x ∷ xs) [] s p q e = absurd (omega arith)
  leaves-binds (x ∷ xs) (y ∷ ys) s p q e =
      let (first, rest) =
        append-split (leaf_hash sha256 namespace x) (leaf_hash sha256 namespace y)
          (length-leaf_hash x ∙ sym (length-leaf_hash y)) e in
      both (leaf_hash-binds sha256 namespace x y (p x (inl refl)) (q y (inl refl)) first)
        (leaves-binds xs ys (omega arith) (λ a h. p a (inr h)) (λ a h. q a (inr h)) rest)
    where
      both :
          (x ≡ y) ⊎ Collision sha256
          → (xs ≡ ys) ⊎ Collision sha256
          → (x ∷ xs ≡ y ∷ ys) ⊎ Collision sha256
      both (inr c) d = inr c
      both (inl a) (inr c) = inr c
      both (inl a) (inl b) = inl (ap₂ (λ h t. h ∷ t) a b)

-- A child whose count fits a `u64` and whose hash has 32 bytes.
pub record Encodes (c : InventoryChild) : Type 0 where
  pub count : c.count < 2 ^ 64
  pub hash : length c.hash ≡ 32

pub encode_children-binds :
    (cs ds : List InventoryChild)
    → ((c : InventoryChild) → Has c cs → Encodes c)
    → ((c : InventoryChild) → Has c ds → Encodes c)
    → encode_children cs ≡ encode_children ds
    → cs ≡ ds
unfolding encode_children
encode_children-binds [] [] p q e = refl
encode_children-binds [] (d ∷ ds) p q e = absurd (nothing (ap length e))
  where
    nothing : {n : ℕ} → ¬ (0 ≡ suc n)
    nothing e = omega arith
encode_children-binds (c ∷ cs) [] p q e = absurd (nothing (ap length e))
  where
    nothing : {n : ℕ} → ¬ (suc n ≡ 0)
    nothing e = omega arith
encode_children-binds (c ∷ cs) (d ∷ ds) p q e =
    let (counts, after) =
      append-split (to_be_bytes 8 c.count) (to_be_bytes 8 d.count) refl (ap (drop 1) e) in
    let (hashes, rest) =
      append-split c.hash d.hash ((p c (inl refl)).hash ∙ sym (q d (inl refl)).hash) after in
    ap₂ (λ h t. h ∷ t)
      (same_child (ap (λ l. get_or l 0 0) e)
        (to_be_bytes-eight c.count d.count (p c (inl refl)).count (q d (inl refl)).count counts)
        hashes)
      (encode_children-binds cs ds (λ a h. p a (inr h)) (λ a h. q a (inr h)) rest)
  where
    same_child : c.digit ≡ d.digit → c.count ≡ d.count → c.hash ≡ d.hash → c ≡ d
    same_child i j k = λ t. record { digit = i t; count = j t; hash = k t }
