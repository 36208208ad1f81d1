-- ===== src/Replication/Hashes/Binds.antt =====
-- What a digest says of the bytes that were hashed: they are the same, or two inputs with one digest
-- have been found.
use fractonica.Common.{
  ℕ, zero, suc, ◌/◌, ◌%◌, ◌^◌, ◌<◌, ◌≡◌, ◌≢◌, refl, sym, ap, ap₂, ◌∙◌, ◌⊎◌, inl, inr, List, [], ◌∷◌,
  ◌++◌, length, get_or, arith, drop,
}
use fractonica.Replication.{InventoryEntry}
use fractonica.Replication.Bytes.{bytes_discrete}
use fractonica.Replication.Hashes.{
  empty_domain, leaf_domain, node_domain, to_be_bytes, digest_parts, leaf_hash,
}

append-cancel_left : (xs : List ℕ) {ys zs : List ℕ} → xs ++ ys ≡ xs ++ zs → ys ≡ zs
append-cancel_left [] e = e
append-cancel_left (x ∷ xs) e = append-cancel_left xs (ap (drop 1) e)

-- Parts of equal sizes are equal.
pub append-split :
    (xs ys : List ℕ) {us vs : List ℕ}
    → length xs ≡ length ys
    → xs ++ us ≡ ys ++ vs
    → (xs ≡ ys) × (us ≡ vs)
append-split [] [] s e = (refl, e)
append-split [] (y ∷ ys) s e = absurd (omega arith)
append-split (x ∷ xs) [] s e = absurd (omega arith)
append-split (x ∷ xs) (y ∷ ys) s e =
    let (p, q) = append-split xs ys (omega arith) (ap (drop 1) e) in
    (ap₂ (λ h t. h ∷ t) (ap (λ l. get_or l 0 0) e) p, q)

length-to_be_bytes : (size n : ℕ) → length (to_be_bytes size n) ≡ size
length-to_be_bytes zero n = refl
length-to_be_bytes (suc size) n = ap suc (length-to_be_bytes size n)

-- A number is its lowest bytes.
pub to_be_bytes-eight :
    (n m : ℕ) → n < 2 ^ 64 → m < 2 ^ 64 → to_be_bytes 8 n ≡ to_be_bytes 8 m → n ≡ m
to_be_bytes-eight n m p q e = joined n m p q (at 0) (at 1) (at 2) (at 3) (at 4) (at 5) (at 6) (at 7)
  where
    at : (i : ℕ) → get_or (to_be_bytes 8 n) i 0 ≡ get_or (to_be_bytes 8 m) i 0
    at i = ap (λ l. get_or l i 0) e

    joined :
        (n m : ℕ)
        → n < 2 ^ 64
        → m < 2 ^ 64
        → n / 256 ^ 7 % 256 ≡ m / 256 ^ 7 % 256
        → n / 256 ^ 6 % 256 ≡ m / 256 ^ 6 % 256
        → n / 256 ^ 5 % 256 ≡ m / 256 ^ 5 % 256
        → n / 256 ^ 4 % 256 ≡ m / 256 ^ 4 % 256
        → n / 256 ^ 3 % 256 ≡ m / 256 ^ 3 % 256
        → n / 256 ^ 2 % 256 ≡ m / 256 ^ 2 % 256
        → n / 256 ^ 1 % 256 ≡ m / 256 ^ 1 % 256
        → n / 256 ^ 0 % 256 ≡ m / 256 ^ 0 % 256
        → n ≡ m
    joined n m p q a b c d e f g h = omega arith

module _ (sha256 : List ℕ → List ℕ) where
  -- Two inputs with one digest.
  abbrev pub Collision : Type 0
  Collision = (x : List ℕ) × (y : List ℕ) × (x ≢ y) × (sha256 x ≡ sha256 y)

  same_input : (x y : List ℕ) → sha256 x ≡ sha256 y → (x ≡ y) ⊎ Collision
  same_input x y e = elim (bytes_discrete x y) [ yes p ↦ inl p | no n ↦ inr (x, y, n, e) ]

  pub digest_parts-binds :
      (namespace prefix : List ℕ) (n m : ℕ) (xs ys : List ℕ)
      → n < 2 ^ 64
      → m < 2 ^ 64
      → digest_parts sha256 node_domain namespace prefix n xs
        ≡ digest_parts sha256 node_domain namespace prefix m ys
      → ((n ≡ m) × (xs ≡ ys)) ⊎ Collision
  unfolding digest_parts
  digest_parts-binds namespace prefix n m xs ys p q e = elim (same_input _ _ e) [
    | inr c ↦ inr c
    | inl same ↦ inl (
        parts (
          append-cancel_left prefix (
            append-cancel_left (to_be_bytes 2 (length prefix)) (
              append-cancel_left namespace (
                append-cancel_left (to_be_bytes 2 (length namespace))
                  (append-cancel_left node_domain same))))))
  ]
    where
      parts : to_be_bytes 8 n ++ xs ≡ to_be_bytes 8 m ++ ys → (n ≡ m) × (xs ≡ ys)
      parts e =
          let (counts, payload) = append-split (to_be_bytes 8 n) (to_be_bytes 8 m) refl e in
          (to_be_bytes-eight n m p q counts, payload)

  -- The digest of an empty bucket is that of no other node.
  pub empty_domain-binds :
      (namespace prefix : List ℕ) (n : ℕ) (xs : List ℕ)
      → digest_parts sha256 empty_domain namespace prefix 0 []
        ≡ digest_parts sha256 node_domain namespace prefix n xs
      → Collision
  unfolding digest_parts
  empty_domain-binds namespace prefix n xs e = elim (same_input _ _ e) [
    | inr c ↦ c
    | inl same ↦ absurd (differ (ap (λ l. get_or l 21 0) same))
  ]
    where
      differ : ¬ (◌≡◌ {A = ℕ} 101 110)
      differ e = omega arith

  pub leaf_hash-binds :
      (namespace : List ℕ) (a b : InventoryEntry)
      → length a.key ≡ 32
      → length b.key ≡ 32
      → leaf_hash sha256 namespace a ≡ leaf_hash sha256 namespace b
      → (a ≡ b) ⊎ Collision
  unfolding leaf_hash
  leaf_hash-binds namespace a b p q e = elim (same_input _ _ e) [
    | inr c ↦ inr c
    | inl same ↦ inl (
        parts (
          append-cancel_left namespace (
            append-cancel_left (to_be_bytes 2 (length namespace))
              (append-cancel_left leaf_domain same))))
  ]
    where
      parts : a.key ++ a.value_digest ≡ b.key ++ b.value_digest → a ≡ b
      parts e =
          let (keys, digests) = append-split a.key b.key (p ∙ sym q) e in
          λ i. record { key = keys i; value_digest = digests i }
