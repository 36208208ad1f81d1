-- ===== src/DataModel/Maps/Sorted.antt =====
-- Maps whose keys are in order: they are what they give for every key.
use fractonica.Common.{ℕ, ◌≡◌, refl, sym, ◌∙◌, subst, List, none}
use mathlib.Core.Option.{some-injective, some-ne-none}
use fractonica.Replication.Bytes.{
  Before, Before-trans, Before-ne, Comparison, cmp, less, equal, greater, bytes_discrete,
}
use fractonica.DataModel.Maps.{Map, empty, entry, get, put, remove}
use fractonica.DataModel.Maps.Lookup.{get-here, get-later}

module _ {V : Type 0} where
  abbrev pub AllAfter : List ℕ → Map V → Type 0
  AllAfter key empty = Unit {0}
  AllAfter key (entry k v rest) = Before key k × AllAfter key rest

  abbrev pub IsSorted : Map V → Type 0
  IsSorted empty = Unit {0}
  IsSorted (entry k v rest) = AllAfter k rest × IsSorted rest

  AllAfter-trans : (j key : List ℕ) (m : Map V) → Before j key → AllAfter key m → AllAfter j m
  AllAfter-trans j key empty b h = tt
  AllAfter-trans j key (entry k v rest) b (h, hs) =
      (Before-trans j key k b h, AllAfter-trans j key rest b hs)

  get-AllAfter : (key : List ℕ) (m : Map V) → AllAfter key m → get key m ≡ none
  unfolding get
  get-AllAfter key empty h = refl
  get-AllAfter key (entry k v rest) (h, hs) =
      get-later key k v rest (Before-ne h) ∙ get-AllAfter key rest hs

  AllAfter-put :
      (j key : List ℕ) (value : V) (m : Map V)
      → Before j key
      → AllAfter j m
      → AllAfter j (put key value m)
  unfolding put
  AllAfter-put j key value empty b h = (b, tt)
  AllAfter-put j key value (entry k v rest) b (h, hs) =
      by_order (AllAfter-put j key value rest b hs) (cmp key k) refl
    where
      by_order :
          AllAfter j (put key value rest)
          → (c : Comparison key k) → cmp key k ≡ c
          → AllAfter j (put key value (entry k v rest))
      by_order later (less _) e = rw (e, put) (b, (h, hs))
      by_order later (equal _) e = rw (e, put) (b, hs)
      by_order later (greater _) e = rw (e, put) (h, later)

  AllAfter-remove : (j key : List ℕ) (m : Map V) → AllAfter j m → AllAfter j (remove key m)
  unfolding remove
  AllAfter-remove j key empty h = tt
  AllAfter-remove j key (entry k v rest) (h, hs) =
      by_test (AllAfter-remove j key rest hs) (bytes_discrete key k) refl
    where
      by_test :
          AllAfter j (remove key rest)
          → (d : Dec (key ≡ k)) → bytes_discrete key k ≡ d
          → AllAfter j (remove key (entry k v rest))
      by_test later (yes _) e = rw (e, remove) hs
      by_test later (no _) e = rw (e, remove) (h, later)

  pub put-IsSorted :
      (key : List ℕ) (value : V) (m : Map V) → IsSorted m → IsSorted (put key value m)
  unfolding put
  put-IsSorted key value empty h = (tt, tt)
  put-IsSorted key value (entry k v rest) (h, hs) =
      by_order (put-IsSorted key value rest hs) (cmp key k) refl
    where
      by_order :
          IsSorted (put key value rest)
          → (c : Comparison key k) → cmp key k ≡ c
          → IsSorted (put key value (entry k v rest))
      by_order later (less b) e = rw (e, put) ((b, AllAfter-trans key k rest b h), (h, hs))
      by_order later (equal p) e = rw (e, put) (subst (λ j. AllAfter j rest) (sym p) h, hs)
      by_order later (greater b) e = rw (e, put) (AllAfter-put k key value rest b h, later)

  pub remove-IsSorted : (key : List ℕ) (m : Map V) → IsSorted m → IsSorted (remove key m)
  unfolding remove
  remove-IsSorted key empty h = tt
  remove-IsSorted key (entry k v rest) (h, hs) =
      by_test (remove-IsSorted key rest hs) (bytes_discrete key k) refl
    where
      by_test :
          IsSorted (remove key rest)
          → (d : Dec (key ≡ k)) → bytes_discrete key k ≡ d
          → IsSorted (remove key (entry k v rest))
      by_test later (yes _) e = rw (e, remove) hs
      by_test later (no _) e = rw (e, remove) (AllAfter-remove k key rest h, later)

  pub get-remove : (key : List ℕ) (m : Map V) → IsSorted m → get key (remove key m) ≡ none
  unfolding get remove
  get-remove key empty h = refl
  get-remove key (entry k v rest) (h, hs) =
      by_test (get-remove key rest hs) (bytes_discrete key k) refl
    where
      by_test :
          get key (remove key rest) ≡ none
          → (d : Dec (key ≡ k)) → bytes_discrete key k ≡ d
          → get key (remove key (entry k v rest)) ≡ none
      by_test later (yes p) e =
          rw (e, remove) (get-AllAfter key rest (subst (λ j. AllAfter j rest) (sym p) h))
      by_test later (no n) e = rw (e, remove) (get-later key k v (remove key rest) n ∙ later)

  absent_first :
      (k k' : List ℕ) (v v' : V) (rest rest' : Map V)
      → Before k k'
      → AllAfter k' rest'
      → ¬ (get k (entry k v rest) ≡ get k (entry k' v' rest'))
  absent_first k k' v v' rest rest' b h e = some-ne-none v (
      sym (get-here k k v rest refl)
      ∙ e
      ∙ get-AllAfter k (entry k' v' rest') (b, AllAfter-trans k k' rest' b h))

  -- Sorted maps that give the same for every key are the same map.
  pub IsSorted-ext :
      (m n : Map V) → IsSorted m → IsSorted n → ((key : List ℕ) → get key m ≡ get key n) → m ≡ n
  unfolding get
  IsSorted-ext empty empty s t same = refl
  IsSorted-ext empty (entry k v rest) s t same =
      absurd (some-ne-none v (sym (get-here k k v rest refl) ∙ sym (same k)))
  IsSorted-ext (entry k v rest) empty s t same =
      absurd (some-ne-none v (sym (get-here k k v rest refl) ∙ same k))
  IsSorted-ext (entry k v rest) (entry k' v' rest') (s, ss) (t, ts) same =
      by_order (IsSorted-ext rest rest' ss ts) (cmp k k')
    where
      by_order :
          (((key : List ℕ) → get key rest ≡ get key rest') → rest ≡ rest')
          → Comparison k k'
          → entry k v rest ≡ entry k' v' rest'
      by_order later (less b) = absurd (absent_first k k' v v' rest rest' b t (same k))
      by_order later (greater b) = absurd (absent_first k' k v' v rest' rest b s (sym (same k')))
      by_order later (equal p) =
          λ i. entry (p i) (values i) (later (λ key. at key (bytes_discrete key k)) i)
        where
          values : v ≡ v'
          values =
              some-injective v v'
                (sym (get-here k k v rest refl) ∙ same k ∙ get-here k k' v' rest' p)

          at : (key : List ℕ) → Dec (key ≡ k) → get key rest ≡ get key rest'
          at key (yes e) =
              get-AllAfter key rest (subst (λ j. AllAfter j rest) (sym e) s)
              ∙ sym (get-AllAfter key rest' (subst (λ j. AllAfter j rest') (sym (e ∙ p)) t))
          at key (no n) =
              sym (get-later key k v rest n)
              ∙ same key
              ∙ get-later key k' v' rest' (λ e. n (e ∙ sym p))
