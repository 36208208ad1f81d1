-- ===== src/Replication/Build/Collects.antt =====
-- What a tree is built of: the entries given, in the order of their keys, whatever order they came in.
use fractonica.Common.{
  ◌≡◌, ◌≢◌, refl, sym, ◌∙◌, ap, subst, ◌↔◌, ◌⊎◌, inl, inr, ℕ, ◌≤◌, ◌<◌, ◌==◌, ◌||◌, ltb, true,
  false, List, [], ◌∷◌, length, arith, Bool-cases,
}
use fractonica.Common.Members.{Has}
use fractonica.Common.Result.{Result, ok, err, ◌>>=◌}
use fractonica.Replication.{
  InventoryEntry, InventoryTree, InventoryError, invalid_namespace, invalid_prefix,
  conflicting_entry,
}
use fractonica.Replication.Build.{lookup, insert, conflicts, insert_all, build}
use fractonica.Replication.Build.Sorted.{
  IsSorted, IsSorted-unique, IsSorted-ext, insert_sound, insert-head, insert-keeps, insert-IsSorted,
}
use fractonica.Replication.Build.Lookup.{lookup-some, lookup-Has, conflicts-true, conflicts-false}

-- What the loop collects, of the entries that are there and those to come.
abbrev pub Given : List InventoryEntry → List InventoryEntry → InventoryEntry → Type 0
Given unique entries e = Has e unique ⊎ Has e entries

abbrev pub Conflict : List ℕ → (InventoryEntry → Type 0) → Type 0
Conflict key From =
    (a : InventoryEntry) × (b : InventoryEntry) × From a
    × From b
    × (a.key ≡ key)
    × (b.key ≡ key)
    × (a.value_digest ≢ b.value_digest)

abbrev pub Collects :
    (InventoryEntry → Type 0) → Result InventoryError (List InventoryEntry) → Type 0
Collects From (ok m) = IsSorted m × ((e : InventoryEntry) → Has e m ↔ From e)
Collects From (err (conflicting_entry key)) = Conflict key From
Collects From (err invalid_namespace) = ⊥
Collects From (err invalid_prefix) = ⊥

Collects-same :
    {From To : InventoryEntry → Type 0} (r : Result InventoryError (List InventoryEntry))
    → ((e : InventoryEntry) → From e ↔ To e)
    → Collects From r
    → Collects To r
Collects-same (ok m) same (s, all) =
    (s, λ e. (λ h. (same e).0 ((all e).0 h), λ h. (all e).1 ((same e).1 h)))
Collects-same (err (conflicting_entry key)) same (a, b, p, q, k, l, v) =
    (a, b, (same a).0 p, (same b).0 q, k, l, v)
Collects-same (err invalid_namespace) same c = c
Collects-same (err invalid_prefix) same c = c

-- An entry that does not conflict moves from those to come to those there.
moves :
    (unique : List InventoryEntry) (entry : InventoryEntry) (rest : List InventoryEntry)
    → IsSorted unique
    → conflicts (lookup entry.key unique) entry.value_digest ≡ false
    → (e : InventoryEntry) → Given (insert entry unique) rest e ↔ Given unique (entry ∷ rest) e
moves unique entry rest s h e = (over, back)
  where
    same : Has e unique → e.key ≡ entry.key → e ≡ entry
    same m p = λ i. record { key = p i; value_digest = q i }
      where
        q : e.value_digest ≡ entry.value_digest
        q = conflicts-false e.value_digest entry.value_digest (
            sym (
              ap (λ o. conflicts o entry.value_digest)
                (sym (ap (λ k. lookup k unique) p) ∙ lookup-Has unique e s m))
            ∙ h)

    over : Given (insert entry unique) rest e → Given unique (entry ∷ rest) e
    over (inl m) = elim (insert_sound entry unique e m) [ inl p ↦ inr (inl p) | inr n ↦ inl n ]
    over (inr m) = inr (inr m)

    back : Given unique (entry ∷ rest) e → Given (insert entry unique) rest e
    back (inl m) = inl (insert-keeps entry unique e (same m) m)
    back (inr (inl p)) =
        inl (subst (λ z. Has z (insert entry unique)) (sym p) (insert-head entry unique))
    back (inr (inr m)) = inr m

insert_all-Collects :
    (unique entries : List InventoryEntry)
    → IsSorted unique
    → Collects (Given unique entries) (insert_all unique entries)
unfolding insert_all
insert_all-Collects unique [] s =
    (s, λ e. (λ h. inl h, λ h. elim h [ inl m ↦ m | inr m ↦ absurd m ]))
insert_all-Collects unique (entry ∷ rest) s =
    elim (Bool-cases (conflicts (lookup entry.key unique) entry.value_digest)) [
      | inl t ↦ rw t (clash t)
      | inr f ↦ rw f (
          Collects-same (insert_all (insert entry unique) rest) (moves unique entry rest s f)
            (insert_all-Collects (insert entry unique) rest (insert-IsSorted entry unique s)))
    ]
  where
    clash :
        conflicts (lookup entry.key unique) entry.value_digest ≡ true
        → Conflict entry.key (Given unique (entry ∷ rest))
    clash t =
        let (w, found, other) = conflicts-true (lookup entry.key unique) entry.value_digest t in
        (
          record { key = entry.key; value_digest = w },
          entry,
          inl (lookup-some entry.key unique w found),
          inr (inl refl),
          refl,
          refl,
          other,
        )

-- A tree that was built: its entries, sorted and without duplicates; or what was wrong.
abbrev pub Builds : List ℕ → List InventoryEntry → Result InventoryError InventoryTree → Type 0
Builds namespace entries (ok tree) =
    (tree.namespace ≡ namespace)
    × (1 ≤ length namespace)
    × (length namespace ≤ 32)
    × IsSorted tree.entries
    × ((e : InventoryEntry) → Has e tree.entries ↔ Has e entries)
Builds namespace entries (err invalid_namespace) = (length namespace ≡ 0) ⊎ (32 < length namespace)
Builds namespace entries (err (conflicting_entry key)) = Conflict key (λ e. Has e entries)
Builds namespace entries (err invalid_prefix) = ⊥

collected :
    (namespace : List ℕ) (entries : List InventoryEntry)
    (r : Result InventoryError (List InventoryEntry))
    → 1 ≤ length namespace
    → length namespace ≤ 32
    → Collects (λ e. Has e entries) r
    → Builds namespace entries
        (r >>= λ unique. ok (record { namespace = namespace; entries = unique }))
collected namespace entries (ok m) low high (s, all) = (refl, low, high, s, all)
collected namespace entries (err (conflicting_entry key)) low high c = c
collected namespace entries (err invalid_namespace) low high c = absurd c
collected namespace entries (err invalid_prefix) low high c = absurd c

-- build returns a tree of the given namespace of 1 to 32 bytes whose entries are exactly the given
-- ones, strictly sorted by their keys; it refuses a namespace of another length, or names a key
-- that has two different digests among the given entries.
pub build-Builds :
    (namespace : List ℕ) (entries : List InventoryEntry)
    → Builds namespace entries (build namespace entries)
unfolding build
build-Builds namespace entries =
    elim (Bool-cases ((length namespace == 0) || ltb 32 (length namespace))) [
      | inl t ↦ rw t (outside (length namespace) t)
      | inr f ↦ rw f (
          collected namespace entries (insert_all [] entries) (positive (length namespace) f)
            (small (length namespace) f)
            (Collects-same (insert_all [] entries) none_there (insert_all-Collects [] entries tt)))
    ]
  where
    outside : (n : ℕ) → ((n == 0) || ltb 32 n) ≡ true → (n ≡ 0) ⊎ (32 < n)
    outside n t = ground arith

    positive : (n : ℕ) → ((n == 0) || ltb 32 n) ≡ false → 1 ≤ n
    positive n f = ground arith

    small : (n : ℕ) → ((n == 0) || ltb 32 n) ≡ false → n ≤ 32
    small n f = ground arith

    none_there : (e : InventoryEntry) → Given [] entries e ↔ Has e entries
    none_there e = (λ g. elim g [ inl m ↦ absurd m | inr m ↦ m ], λ m. inr m)

same_tree :
    (namespace : List ℕ) (xs ys : List InventoryEntry) (t : InventoryTree)
    (r : Result InventoryError InventoryTree)
    → Builds namespace xs (ok t)
    → ((e : InventoryEntry) → Has e xs ↔ Has e ys)
    → Builds namespace ys r
    → r ≡ ok t
same_tree namespace xs ys t (ok u) (n, low, high, s, all) same (n', _, _, s', all') =
    λ i. ok (record { namespace = (n' ∙ sym n) i; entries = equal_entries i })
  where
    equal_entries : u.entries ≡ t.entries
    equal_entries = IsSorted-ext u.entries t.entries s' s (λ e.
        (λ h. (all e).1 ((same e).1 ((all' e).0 h)), λ h. (all' e).1 ((same e).0 ((all e).0 h))))
same_tree namespace xs ys t (err invalid_namespace) (n, low, high, s, all) same (inl z) =
    absurd (omega arith)
same_tree namespace xs ys t (err invalid_namespace) (n, low, high, s, all) same (inr z) =
    absurd (omega arith)
same_tree namespace xs ys t (err invalid_prefix) b same c = absurd c
same_tree namespace xs ys t (err (conflicting_entry key)) (n, low, high, s, all) same
      (a, b, p, q, k, l, v) =
    absurd (
      v (
        ap (λ z. z.value_digest)
          (IsSorted-unique t.entries a b s ((all a).1 ((same a).1 p)) ((all b).1 ((same b).1 q))
            (k ∙ sym l))))

-- Whenever build succeeds, any other list of the same entries, in whatever order and with whatever
-- duplicates, builds the same tree.
pub build-same_members :
    (namespace : List ℕ) (xs ys : List InventoryEntry) (t : InventoryTree)
    → build namespace xs ≡ ok t
    → ((e : InventoryEntry) → Has e xs ↔ Has e ys)
    → build namespace ys ≡ ok t
build-same_members namespace xs ys t built same =
    same_tree namespace xs ys t (build namespace ys)
      (subst (Builds namespace xs) built (build-Builds namespace xs)) same
      (build-Builds namespace ys)
