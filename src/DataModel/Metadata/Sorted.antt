-- ===== src/DataModel/Metadata/Sorted.antt =====
-- The maps of metadata: their keys are in order, as in a `BTreeMap`, and a key after all others is
-- inserted at the end.
use fractonica.Common.{◌≡◌, refl, ap, subst, false, List, ℕ}
use fractonica.Replication.Bytes.{
  Before, Comparison, cmp, less, equal, greater, Before-irrefl, Before-trans,
}
use fractonica.DataModel.Json.{Value, Values, Members, member}
use fractonica.DataModel.Json
use fractonica.DataModel.Metadata.{contains, insert}

cmp-after : (key k : List ℕ) → Before k key → (g : Before k key) × (cmp key k ≡ greater g)
cmp-after key k h = by_order (cmp key k)
  where
    by_order : (c : Comparison key k) → (g : Before k key) × (c ≡ greater g)
    by_order (less g) = absurd (Before-irrefl k (Before-trans k key k h g))
    by_order (equal e) = absurd (Before-irrefl k (subst (λ t. Before k t) e h))
    by_order (greater g) = (g, refl)

module _ {N : Type 0} where
  -- Every key of the map is after the given one.
  abbrev pub AllAfter : List ℕ → Members N → Type 0
  AllAfter key Json.end = Unit {0}
  AllAfter key (member k v rest) = Before key k × AllAfter key rest

  abbrev pub AllBefore : Members N → List ℕ → Type 0
  AllBefore Json.end key = Unit {0}
  AllBefore (member k v rest) key = Before k key × AllBefore rest key

  abbrev mutual
    -- The keys of every map in the value are in order.
    pub IsValue : Value N → Type 0
    IsValue (Json.array values) = AreValues values
    IsValue (Json.object members) = IsObject members
    IsValue _ = Unit {0}

    pub AreValues : Values N → Type 0
    AreValues Json.nil = Unit {0}
    AreValues (Json.cons v vs) = IsValue v × AreValues vs

    pub IsObject : Members N → Type 0
    IsObject Json.end = Unit {0}
    IsObject (member k v rest) = AllAfter k rest × IsValue v × IsObject rest

  abbrev pub append : Members N → Members N → Members N
  append Json.end m = m
  append (member k v rest) m = member k v (append rest m)

  -- Every key of the second map is after every key of the first.
  abbrev pub Separate : Members N → Members N → Type 0
  Separate acc Json.end = Unit {0}
  Separate acc (member k v rest) = AllBefore acc k × Separate acc rest

  pub Separate-end : (m : Members N) → Separate Json.end m
  Separate-end Json.end = tt
  Separate-end (member k v rest) = (tt, Separate-end rest)

  pub append-end : (m : Members N) → append m Json.end ≡ m
  append-end Json.end = refl
  append-end (member k v rest) = ap (λ m. member k v m) (append-end rest)

  pub append-member :
      (acc : Members N) (k : List ℕ) (v : Value N) (rest : Members N)
      → append (append acc (member k v Json.end)) rest ≡ append acc (member k v rest)
  append-member Json.end k v rest = refl
  append-member (member key value acc) k v rest =
      ap (λ m. member key value m) (append-member acc k v rest)

  AllBefore-append :
      (acc : Members N) (k : List ℕ) (v : Value N) (key : List ℕ)
      → AllBefore acc key
      → Before k key
      → AllBefore (append acc (member k v Json.end)) key
  AllBefore-append Json.end k v key h b = (b, tt)
  AllBefore-append (member x y acc) k v key (h, hs) b = (h, AllBefore-append acc k v key hs b)

  pub Separate-append :
      (acc : Members N) (k : List ℕ) (v : Value N) (rest : Members N)
      → Separate acc rest
      → AllAfter k rest
      → Separate (append acc (member k v Json.end)) rest
  Separate-append acc k v Json.end s a = tt
  Separate-append acc k v (member x y rest) (b, s) (h, a) =
      (AllBefore-append acc k v x b h, Separate-append acc k v rest s a)

  pub contains-AllBefore :
      (acc : Members N) (key : List ℕ) → AllBefore acc key → contains key acc ≡ false
  unfolding contains
  contains-AllBefore Json.end key h = refl
  contains-AllBefore (member k v rest) key (h, hs) =
      let (g, e) = cmp-after key k h in rw (e, contains) (contains-AllBefore rest key hs)

  pub insert-AllBefore :
      (acc : Members N) (key : List ℕ) (value : Value N)
      → AllBefore acc key
      → insert key value acc ≡ append acc (member key value Json.end)
  unfolding insert
  insert-AllBefore Json.end key value h = refl
  insert-AllBefore (member k v rest) key value (h, hs) =
      let (g, e) = cmp-after key k h in
      rw (e, insert) (ap (λ m. member k v m) (insert-AllBefore rest key value hs))
