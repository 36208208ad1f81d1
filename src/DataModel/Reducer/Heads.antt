-- ===== src/DataModel/Reducer/Heads.antt =====
-- The heads after an operation: its causal parents are no longer heads, and it is one.
use fractonica.Common.{ℕ, ◌≡◌, refl, sym, ap, subst, ◌∙◌, ◌↔◌, inl, inr, List, [], ◌∷◌, none, some}
use fractonica.Common.Members.{Has}
use mathlib.Core.Option.{some-ne-none}
use fractonica.Replication.Bytes.{bytes_discrete}
use fractonica.DataModel.Maps.{Map, get, put, remove}
use fractonica.DataModel.Maps.Lookup.{get-put, get-put-other, get-remove-other}
use fractonica.DataModel.Maps.Sorted.{IsSorted, get-remove, remove-IsSorted}
use fractonica.DataModel.Reducer.{OperationEnvelope, remove_all}
use fractonica.DataModel.Reducer.Represents.{IsKnown, IsHead}

pub remove_all-IsSorted :
    (ids : List (List ℕ)) (heads : Map (Unit {0}))
    → IsSorted heads
    → IsSorted (remove_all ids heads)
unfolding remove_all
remove_all-IsSorted [] heads h = h
remove_all-IsSorted (id ∷ ids) heads h =
    remove_all-IsSorted ids (remove id heads) (remove-IsSorted id heads h)

get-remove_all-kept :
    (j : List ℕ) (ids : List (List ℕ)) (heads : Map (Unit {0}))
    → ¬ Has j ids
    → get j (remove_all ids heads) ≡ get j heads
unfolding remove_all
get-remove_all-kept j [] heads n = refl
get-remove_all-kept j (id ∷ ids) heads n =
    get-remove_all-kept j ids (remove id heads) (λ h. n (inr h))
    ∙ get-remove-other j id heads (λ e. n (inl e))

get-remove_all-none :
    (j : List ℕ) (ids : List (List ℕ)) (heads : Map (Unit {0}))
    → IsSorted heads
    → get j heads ≡ none
    → get j (remove_all ids heads) ≡ none
unfolding remove_all
get-remove_all-none j [] heads s e = e
get-remove_all-none j (id ∷ ids) heads s e =
    get-remove_all-none j ids (remove id heads) (remove-IsSorted id heads s)
      (by_test (bytes_discrete j id))
  where
    by_test : Dec (j ≡ id) → get j (remove id heads) ≡ none
    by_test (yes p) = ap (λ k. get k (remove id heads)) p ∙ get-remove id heads s
    by_test (no n) = get-remove-other j id heads n ∙ e

get-remove_all :
    (j : List ℕ) (ids : List (List ℕ)) (heads : Map (Unit {0}))
    → IsSorted heads
    → Has j ids
    → get j (remove_all ids heads) ≡ none
unfolding remove_all
get-remove_all j [] heads s h = absurd h
get-remove_all j (id ∷ ids) heads s (inl e) =
    get-remove_all-none j ids (remove id heads) (remove-IsSorted id heads s)
      (ap (λ k. get k (remove id heads)) e ∙ get-remove id heads s)
get-remove_all j (id ∷ ids) heads s (inr h) =
    get-remove_all j ids (remove id heads) (remove-IsSorted id heads s) h

Has-decided : (j : List ℕ) (ids : List (List ℕ)) → Dec (Has j ids)
Has-decided j [] = no (λ h. h)
Has-decided j (id ∷ ids) = elim (bytes_discrete j id) [
  | yes e ↦ yes (inl e)
  | no n ↦ elim (Has-decided j ids) [
    | yes h ↦ yes (inr h)
    | no m ↦ no (λ h. elim h [ inl e ↦ n e | inr g ↦ m g ])
  ]
]

module _ {Number : Type 0} (seen : List (OperationEnvelope Number)) (heads : Map (Unit {0}))
    (sorted : IsSorted heads) (exact : (id : List ℕ) → (get id heads ≡ some tt) ↔ IsHead seen id)
    (closed : (o : OperationEnvelope Number) (p : List ℕ)
      → Has o seen
      → Has p o.causal_parents
      → IsKnown seen p)
    (o : OperationEnvelope Number) (fresh : ¬ IsKnown seen o.operation_id)
    (parents : (p : List ℕ) → Has p o.causal_parents → IsKnown seen p) where
  -- No operation names the new one, not even itself.
  new_unnamed :
      (o' : OperationEnvelope Number) → Has o' (o ∷ seen) → ¬ Has o.operation_id o'.causal_parents
  new_unnamed o' (inl e) h =
      fresh (parents o.operation_id (subst (λ x. Has o.operation_id x.causal_parents) e h))
  new_unnamed o' (inr m) h = fresh (closed o' o.operation_id m h)

  new-IsHead : (j : List ℕ) → j ≡ o.operation_id → IsHead (o ∷ seen) j
  new-IsHead j e =
      ((o, inl refl, sym e), λ o' m h. new_unnamed o' m (subst (λ k. Has k o'.causal_parents) e h))

  still-IsHead : (j : List ℕ) → ¬ Has j o.causal_parents → IsHead seen j → IsHead (o ∷ seen) j
  still-IsHead j n ((o', m, e), unnamed) = ((o', inr m, e), each)
    where
      each : (x : OperationEnvelope Number) → Has x (o ∷ seen) → ¬ Has j x.causal_parents
      each x (inl p) h = n (subst (λ y. Has j y.causal_parents) p h)
      each x (inr q) h = unnamed x q h

  was-IsHead :
      (j : List ℕ)
      → ¬ (j ≡ o.operation_id)
      → IsHead (o ∷ seen) j
      → (¬ Has j o.causal_parents) × IsHead seen j
  was-IsHead j n ((o', inl p, e), unnamed) = absurd (n (sym e ∙ ap (λ x. x.operation_id) p))
  was-IsHead j n ((o', inr m, e), unnamed) =
      (unnamed o (inl refl), ((o', m, e), λ x q. unnamed x (inr q)))

  next_heads_to :
      (j : List ℕ)
      → get j (put o.operation_id tt (remove_all o.causal_parents heads)) ≡ some tt
      → IsHead (o ∷ seen) j
  next_heads_to j h = elim (bytes_discrete j o.operation_id) [
    | yes e ↦ new-IsHead j e
    | no n ↦ elim (Has-decided j o.causal_parents) [
      | yes m ↦ absurd (
          some-ne-none tt (
            sym h
            ∙ get-put-other j o.operation_id tt (remove_all o.causal_parents heads) n
            ∙ get-remove_all j o.causal_parents heads sorted m))
      | no m ↦ still-IsHead j m (
          (exact j).0 (
            sym (get-remove_all-kept j o.causal_parents heads m)
            ∙ sym (get-put-other j o.operation_id tt (remove_all o.causal_parents heads) n)
            ∙ h))
    ]
  ]

  next_heads_from :
      (j : List ℕ)
      → IsHead (o ∷ seen) j
      → get j (put o.operation_id tt (remove_all o.causal_parents heads)) ≡ some tt
  next_heads_from j h = elim (bytes_discrete j o.operation_id) [
    | yes e ↦
        ap (λ k. get k (put o.operation_id tt (remove_all o.causal_parents heads))) e
        ∙ get-put o.operation_id tt (remove_all o.causal_parents heads)
    | no n ↦
        let (m, g) = was-IsHead j n h in
        get-put-other j o.operation_id tt (remove_all o.causal_parents heads) n
        ∙ get-remove_all-kept j o.causal_parents heads m
        ∙ (exact j).1 g
  ]

  pub next_heads :
      (j : List ℕ)
      → (get j (put o.operation_id tt (remove_all o.causal_parents heads)) ≡ some tt)
        ↔ IsHead (o ∷ seen) j
  next_heads j = (next_heads_to j, next_heads_from j)
