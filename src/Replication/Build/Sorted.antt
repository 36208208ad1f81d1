-- ===== src/Replication/Build/Sorted.antt =====
-- The entries of a map: sorted by their keys, and determined by what they contain.
use fractonica.Common.{◌≡◌, refl, sym, ◌∙◌, ap, ap₂, subst, ◌↔◌, ◌⊎◌, inl, inr, List, [], ◌∷◌}
use fractonica.Common.Members.{Has}
use fractonica.Replication.{InventoryEntry}
use fractonica.Replication.Bytes.{
  Before, Before-irrefl, Before-trans, Before-ne, cmp, less, equal, greater, Comparison,
}
use fractonica.Replication.Build.{insert}

abbrev pub IsSorted : List InventoryEntry → Type 0
IsSorted [] = Unit {0}
IsSorted (x ∷ xs) = ((y : InventoryEntry) → Has y xs → Before x.key y.key) × IsSorted xs

-- What `insert` makes of a list that is not empty, by the comparison of its first key.
abbrev inserted :
    (entry x : InventoryEntry)
    → List InventoryEntry
    → Comparison entry.key x.key
    → List InventoryEntry
inserted entry x xs (less _) = entry ∷ x ∷ xs
inserted entry x xs (equal _) = entry ∷ xs
inserted entry x xs (greater _) = x ∷ insert entry xs

insert-inserted :
    (entry x : InventoryEntry) (xs : List InventoryEntry)
    → insert entry (x ∷ xs) ≡ inserted entry x xs (cmp entry.key x.key)
unfolding insert
insert-inserted entry x xs = by_order (cmp entry.key x.key)
  where
    by_order :
        (c : Comparison entry.key x.key)
        → (elim c [
          | less _ ↦ entry ∷ x ∷ xs
          | equal _ ↦ entry ∷ xs
          | greater _ ↦ x ∷ insert entry xs
        ])
          ≡ inserted entry x xs c
    by_order (less _) = refl
    by_order (equal _) = refl
    by_order (greater _) = refl

pub insert_sound :
    (entry : InventoryEntry) (xs : List InventoryEntry) (y : InventoryEntry)
    → Has y (insert entry xs)
    → (y ≡ entry) ⊎ Has y xs
unfolding insert
insert_sound entry [] y h = h
insert_sound entry (x ∷ xs) y h =
    by_order (cmp entry.key x.key) (insert_sound entry xs y)
      (subst (Has y) (insert-inserted entry x xs) h)
  where
    by_order :
        (c : Comparison entry.key x.key)
        → (Has y (insert entry xs) → (y ≡ entry) ⊎ Has y xs)
        → Has y (inserted entry x xs c)
        → (y ≡ entry) ⊎ Has y (x ∷ xs)
    by_order (less _) rest m = m
    by_order (equal _) rest (inl e) = inl e
    by_order (equal _) rest (inr m) = inr (inr m)
    by_order (greater _) rest (inl e) = inr (inl e)
    by_order (greater _) rest (inr m) = elim (rest m) [ inl e ↦ inl e | inr n ↦ inr (inr n) ]

pub insert-head : (entry : InventoryEntry) (xs : List InventoryEntry) → Has entry (insert entry xs)
unfolding insert
insert-head entry [] = inl refl
insert-head entry (x ∷ xs) =
    subst (Has entry) (sym (insert-inserted entry x xs))
      (by_order (cmp entry.key x.key) (insert-head entry xs))
  where
    by_order :
        (c : Comparison entry.key x.key)
        → Has entry (insert entry xs)
        → Has entry (inserted entry x xs c)
    by_order (less _) rest = inl refl
    by_order (equal _) rest = inl refl
    by_order (greater _) rest = inr rest

-- An entry whose key is not overwritten stays.
pub insert-keeps :
    (entry : InventoryEntry) (xs : List InventoryEntry) (y : InventoryEntry)
    → (y.key ≡ entry.key → y ≡ entry)
    → Has y xs
    → Has y (insert entry xs)
unfolding insert
insert-keeps entry [] y same h = absurd h
insert-keeps entry (x ∷ xs) y same h =
    subst (Has y) (sym (insert-inserted entry x xs))
      (by_order (cmp entry.key x.key) (insert-keeps entry xs y same) h)
  where
    by_order :
        (c : Comparison entry.key x.key)
        → (Has y xs → Has y (insert entry xs))
        → Has y (x ∷ xs)
        → Has y (inserted entry x xs c)
    by_order (less _) rest m = inr m
    by_order (equal e) rest (inl p) = inl (same (ap (λ z. z.key) p ∙ sym e))
    by_order (equal _) rest (inr m) = inr m
    by_order (greater _) rest (inl p) = inl p
    by_order (greater _) rest (inr m) = inr (rest m)

pub insert-IsSorted :
    (entry : InventoryEntry) (xs : List InventoryEntry) → IsSorted xs → IsSorted (insert entry xs)
unfolding insert
insert-IsSorted entry [] s = (λ y h. absurd h, tt)
insert-IsSorted entry (x ∷ xs) s =
    subst IsSorted (sym (insert-inserted entry x xs))
      (by_order (cmp entry.key x.key) (insert-IsSorted entry xs s.1))
  where
    later : Before entry.key x.key → (y : InventoryEntry) → Has y (x ∷ xs) → Before entry.key y.key
    later b y (inl e) = subst (λ z. Before entry.key z.key) (sym e) b
    later b y (inr h) = Before-trans entry.key x.key y.key b (s.0 y h)

    above :
        Before x.key entry.key → (y : InventoryEntry) → Has y (insert entry xs) → Before x.key y.key
    above b y h = elim (insert_sound entry xs y h) [
      | inl e ↦ subst (λ z. Before x.key z.key) (sym e) b
      | inr m ↦ s.0 y m
    ]

    by_order :
        (c : Comparison entry.key x.key)
        → IsSorted (insert entry xs)
        → IsSorted (inserted entry x xs c)
    by_order (less b) rest = (later b, s)
    by_order (equal e) rest = (λ y h. subst (λ k. Before k y.key) (sym e) (s.0 y h), s.1)
    by_order (greater b) rest = (above b, rest)

-- In a sorted list a key has one entry.
pub IsSorted-unique :
    (xs : List InventoryEntry) (a b : InventoryEntry)
    → IsSorted xs
    → Has a xs
    → Has b xs
    → a.key ≡ b.key
    → a ≡ b
IsSorted-unique [] a b s p q e = absurd p
IsSorted-unique (x ∷ xs) a b s (inl p) (inl q) e = p ∙ sym q
IsSorted-unique (x ∷ xs) a b s (inl p) (inr q) e =
    absurd (Before-ne (s.0 b q) (ap (λ z. z.key) (sym p) ∙ e))
IsSorted-unique (x ∷ xs) a b s (inr p) (inl q) e =
    absurd (Before-ne (s.0 a p) (ap (λ z. z.key) (sym q) ∙ sym e))
IsSorted-unique (x ∷ xs) a b s (inr p) (inr q) e = IsSorted-unique xs a b s.1 p q e

-- Sorted lists with the same members are the same list.
pub IsSorted-ext :
    (xs ys : List InventoryEntry)
    → IsSorted xs
    → IsSorted ys
    → ((a : InventoryEntry) → Has a xs ↔ Has a ys)
    → xs ≡ ys
IsSorted-ext [] [] s t same = refl
IsSorted-ext [] (y ∷ ys) s t same = absurd ((same y).1 (inl refl))
IsSorted-ext (x ∷ xs) [] s t same = absurd ((same x).0 (inl refl))
IsSorted-ext (x ∷ xs) (y ∷ ys) s t same =
    ap₂ (λ h r. h ∷ r) heads (IsSorted-ext xs ys s.1 t.1 (λ a. (over a, back a)))
  where
    heads : x ≡ y
    heads = elim ((same x).0 (inl refl)) [
      | inl e ↦ e
      | inr h ↦ elim ((same y).1 (inl refl)) [
        | inl e ↦ sym e
        | inr g ↦ absurd (Before-irrefl x.key (Before-trans x.key y.key x.key (s.0 y g) (t.0 x h)))
      ]
    ]

    over : (a : InventoryEntry) → Has a xs → Has a ys
    over a h = elim ((same a).0 (inr h)) [
      | inl e ↦ absurd (Before-ne (s.0 a h) (ap (λ z. z.key) (heads ∙ sym e)))
      | inr g ↦ g
    ]

    back : (a : InventoryEntry) → Has a ys → Has a xs
    back a h = elim ((same a).1 (inr h)) [
      | inl e ↦ absurd (Before-ne (t.0 a h) (ap (λ z. z.key) (sym heads ∙ sym e)))
      | inr g ↦ g
    ]
