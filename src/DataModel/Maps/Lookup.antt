-- ===== src/DataModel/Maps/Lookup.antt =====
-- What is found after an insertion.
use fractonica.Common.{ℕ, suc, ◌≡◌, refl, sym, ap, ◌∙◌, List, none, some}
use mathlib.Core.Option.{some-ne-none}
use fractonica.Replication.Bytes.{Before-ne, Comparison, cmp, less, equal, greater, bytes_discrete}
use fractonica.DataModel.Maps.{Map, empty, entry, get, put, remove, size}

pub bytes_discrete-same : (a b : List ℕ) → a ≡ b → (e : a ≡ b) × (bytes_discrete a b ≡ yes e)
bytes_discrete-same a b h = by_test (bytes_discrete a b)
  where
    by_test : (d : Dec (a ≡ b)) → (e : a ≡ b) × (d ≡ yes e)
    by_test (yes e) = (e, refl)
    by_test (no n) = absurd (n h)

pub bytes_discrete-other :
    (a b : List ℕ) → ¬ (a ≡ b) → (n : ¬ (a ≡ b)) × (bytes_discrete a b ≡ no n)
bytes_discrete-other a b h = by_test (bytes_discrete a b)
  where
    by_test : (d : Dec (a ≡ b)) → (n : ¬ (a ≡ b)) × (d ≡ no n)
    by_test (yes e) = absurd (h e)
    by_test (no n) = (n, refl)

module _ {V : Type 0} where
  pub get-here :
      (key k : List ℕ) (v : V) (rest : Map V) → key ≡ k → get key (entry k v rest) ≡ some v
  unfolding get
  get-here key k v rest h = let (e, p) = bytes_discrete-same key k h in rw (p, get) refl

  pub get-later :
      (key k : List ℕ) (v : V) (rest : Map V)
      → ¬ (key ≡ k)
      → get key (entry k v rest) ≡ get key rest
  unfolding get
  get-later key k v rest h = let (n, p) = bytes_discrete-other key k h in rw (p, get) refl

  pub get-put : (key : List ℕ) (value : V) (m : Map V) → get key (put key value m) ≡ some value
  unfolding put
  get-put key value empty = get-here key key value empty refl
  get-put key value (entry k v rest) = by_order (get-put key value rest) (cmp key k) refl
    where
      by_order :
          (get key (put key value rest) ≡ some value)
          → (c : Comparison key k) → cmp key k ≡ c
          → get key (put key value (entry k v rest)) ≡ some value
      by_order later (less b) e = rw (e, put) (get-here key key value (entry k v rest) refl)
      by_order later (equal p) e = rw (e, put) (get-here key key value rest refl)
      by_order later (greater b) e =
          rw (e, put) (get-later key k v (put key value rest) (λ p. Before-ne b (sym p)) ∙ later)

  pub get-put-other :
      (j key : List ℕ) (value : V) (m : Map V) → ¬ (j ≡ key) → get j (put key value m) ≡ get j m
  unfolding put
  get-put-other j key value empty h = get-later j key value empty h
  get-put-other j key value (entry k v rest) h =
      by_order (get-put-other j key value rest h) (cmp key k) refl (bytes_discrete j k)
    where
      by_order :
          (get j (put key value rest) ≡ get j rest)
          → (c : Comparison key k) → cmp key k ≡ c
          → Dec (j ≡ k)
          → get j (put key value (entry k v rest)) ≡ get j (entry k v rest)
      by_order later (less b) e d = rw (e, put) (get-later j key value (entry k v rest) h)
      by_order later (equal p) e d =
          rw (e, put)
            (get-later j key value rest h ∙ sym (get-later j k v rest (λ q. h (q ∙ sym p))))
      by_order later (greater b) e (yes q) =
          rw (e, put) (get-here j k v (put key value rest) q ∙ sym (get-here j k v rest q))
      by_order later (greater b) e (no n) =
          rw (e, put)
            (get-later j k v (put key value rest) n ∙ later ∙ sym (get-later j k v rest n))

  pub get-remove-other : (j key : List ℕ) (m : Map V) → ¬ (j ≡ key) → get j (remove key m) ≡ get j m
  unfolding remove
  get-remove-other j key empty h = refl
  get-remove-other j key (entry k v rest) h =
      by_test (get-remove-other j key rest h) (bytes_discrete key k) refl (bytes_discrete j k)
    where
      by_test :
          (get j (remove key rest) ≡ get j rest)
          → (d : Dec (key ≡ k)) → bytes_discrete key k ≡ d
          → Dec (j ≡ k)
          → get j (remove key (entry k v rest)) ≡ get j (entry k v rest)
      by_test later (yes p) e d = rw (e, remove) (sym (get-later j k v rest (λ q. h (q ∙ sym p))))
      by_test later (no n) e (yes q) =
          rw (e, remove) (get-here j k v (remove key rest) q ∙ sym (get-here j k v rest q))
      by_test later (no n) e (no n') =
          rw (e, remove)
            (get-later j k v (remove key rest) n' ∙ later ∙ sym (get-later j k v rest n'))

  pub size-put :
      (key : List ℕ) (value : V) (m : Map V)
      → get key m ≡ none
      → size (put key value m) ≡ suc (size m)
  unfolding put
  size-put key value empty h = refl
  size-put key value (entry k v rest) h =
      by_order (λ n. size-put key value rest (sym (get-later key k v rest n) ∙ h)) (cmp key k) refl
    where
      by_order :
          (¬ (key ≡ k) → size (put key value rest) ≡ suc (size rest))
          → (c : Comparison key k) → cmp key k ≡ c
          → size (put key value (entry k v rest)) ≡ suc (suc (size rest))
      by_order later (less b) e = rw (e, put) refl
      by_order later (equal p) e = absurd (some-ne-none v (sym (get-here key k v rest p) ∙ h))
      by_order later (greater b) e = rw (e, put) (ap suc (later (λ p. Before-ne b (sym p))))
