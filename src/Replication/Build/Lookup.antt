-- ===== src/Replication/Build/Lookup.antt =====
-- What lookups and conflicts say of the entries of a map.
use fractonica.Common.{
  ◌≡◌, ◌≢◌, refl, sym, ap, inl, inr, ℕ, true, false, List, [], ◌∷◌, Option, none, some,
}
use fractonica.Common.Members.{Has}
use fractonica.Replication.{InventoryEntry}
use fractonica.Replication.Bytes.{
  Before-irrefl, Before-trans, Before-ne, cmp, less, equal, greater, Comparison, bytes_discrete,
}
use fractonica.Replication.Build.{lookup, conflicts}
use fractonica.Replication.Build.Sorted.{IsSorted, IsSorted-unique}

pub lookup-some :
    (key : List ℕ) (xs : List InventoryEntry) (v : List ℕ)
    → lookup key xs ≡ some v
    → Has (record { key = key; value_digest = v }) xs
unfolding lookup
lookup-some key [] v h = absurd cc
lookup-some key (x ∷ xs) v h = by_order (cmp key x.key) (lookup-some key xs v) h
  where
    by_order :
        (c : Comparison key x.key)
        → (lookup key xs ≡ some v → Has (record { key = key; value_digest = v }) xs)
        → (elim c [ less _ ↦ none | equal _ ↦ some x.value_digest | greater _ ↦ lookup key xs ])
          ≡ some v
        → Has (record { key = key; value_digest = v }) (x ∷ xs)
    by_order (less _) rest e = absurd cc
    by_order (equal p) rest e = inl (λ i. record { key = p i; value_digest = unwrapped i })
      where
        unwrapped : v ≡ x.value_digest
        unwrapped = cc
    by_order (greater _) rest e = inr (rest e)

pub lookup-Has :
    (xs : List InventoryEntry) (y : InventoryEntry)
    → IsSorted xs
    → Has y xs
    → lookup y.key xs ≡ some y.value_digest
unfolding lookup
lookup-Has [] y s h = absurd h
lookup-Has (x ∷ xs) y s h = by_order (cmp y.key x.key) (lookup-Has xs y s.1) h
  where
    by_order :
        (c : Comparison y.key x.key)
        → (Has y xs → lookup y.key xs ≡ some y.value_digest)
        → Has y (x ∷ xs)
        → (elim c [ less _ ↦ none | equal _ ↦ some x.value_digest | greater _ ↦ lookup y.key xs ])
          ≡ some y.value_digest
    by_order (less b) rest (inl e) = absurd (Before-ne b (ap (λ z. z.key) e))
    by_order (less b) rest (inr m) =
        absurd (Before-irrefl y.key (Before-trans y.key x.key y.key b (s.0 y m)))
    by_order (equal e) rest m =
        ap (λ z. some z.value_digest) (IsSorted-unique (x ∷ xs) x y s (inl refl) m (sym e))
    by_order (greater b) rest (inl e) = absurd (Before-ne b (ap (λ z. z.key) (sym e)))
    by_order (greater _) rest (inr m) = rest m

pub conflicts-true :
    (existing : Option (List ℕ)) (v : List ℕ)
    → conflicts existing v ≡ true
    → (w : List ℕ) × (existing ≡ some w) × (w ≢ v)
unfolding conflicts
conflicts-true none v h = absurd cc
conflicts-true (some w) v h = by_dec (bytes_discrete w v) h
  where
    by_dec :
        (d : Dec (w ≡ v))
        → (elim d [ yes _ ↦ false | no _ ↦ true ]) ≡ true
        → (u : List ℕ) × (some w ≡ some u) × (u ≢ v)
    by_dec (yes _) e = absurd cc
    by_dec (no n) e = (w, refl, n)

pub conflicts-false : (w v : List ℕ) → conflicts (some w) v ≡ false → w ≡ v
unfolding conflicts
conflicts-false w v h = by_dec (bytes_discrete w v) h
  where
    by_dec : (d : Dec (w ≡ v)) → (elim d [ yes _ ↦ false | no _ ↦ true ]) ≡ false → w ≡ v
    by_dec (yes e) _ = e
    by_dec (no n) e = absurd cc
