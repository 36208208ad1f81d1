-- ===== src/DataModel/Reducer/Collects.antt =====
-- The heads that are collected at the end, and the list of what was applied.
use fractonica.Common.{
  ℕ, ◌+◌, ◌≡◌, refl, sym, ap, ◌∙◌, ◌↔◌, ◌⊎◌, inl, inr, List, [], ◌∷◌, length, arith, none, some,
}
use mathlib.Core.Option.{some-injective, some-ne-none}
use fractonica.Common.Members.{Has}
use fractonica.Replication.Bytes.{bytes_discrete}
use fractonica.DataModel.Maps.{Map, empty, entry, get}
use fractonica.DataModel.Maps.Lookup.{get-here, get-later}
use fractonica.DataModel.Reducer.{OperationEnvelope, EntityHead, head_of, collect_heads}

widen :
    (id k : List ℕ) (v : Unit {0}) (rest : Map (Unit {0}))
    → get id rest ≡ some tt
    → get id (entry k v rest) ≡ some tt
widen id k v rest g = elim (bytes_discrete id k) [
  | yes e ↦ get-here id k v rest e
  | no n ↦ get-later id k v rest n ∙ g
]

empty_none : (id : List ℕ) → get {V = Unit {0}} id empty ≡ none
unfolding get
empty_none id = refl

module _ {Number : Type 0} where
  -- The operations in the order in which the state has seen them, the last first.
  abbrev pub onto :
      List (OperationEnvelope Number)
      → List (OperationEnvelope Number)
      → List (OperationEnvelope Number)
  onto [] seen = seen
  onto (o ∷ rest) seen = onto rest (o ∷ seen)

  onto_from :
      (ops seen : List (OperationEnvelope Number)) (x : OperationEnvelope Number)
      → Has x ops ⊎ Has x seen
      → Has x (onto ops seen)
  onto_from [] seen x (inr h) = h
  onto_from [] seen x (inl h) = absurd h
  onto_from (o ∷ rest) seen x (inl (inl e)) = onto_from rest (o ∷ seen) x (inr (inl e))
  onto_from (o ∷ rest) seen x (inl (inr h)) = onto_from rest (o ∷ seen) x (inl h)
  onto_from (o ∷ rest) seen x (inr h) = onto_from rest (o ∷ seen) x (inr (inr h))

  onto_to :
      (ops seen : List (OperationEnvelope Number)) (x : OperationEnvelope Number)
      → Has x (onto ops seen)
      → Has x ops ⊎ Has x seen
  onto_to [] seen x h = inr h
  onto_to (o ∷ rest) seen x h = elim (onto_to rest (o ∷ seen) x h) [
    | inl m ↦ inl (inr m)
    | inr (inl e) ↦ inl (inl e)
    | inr (inr m) ↦ inr m
  ]

  pub length-onto :
      (ops seen : List (OperationEnvelope Number))
      → length (onto ops seen) ≡ length ops + length seen
  length-onto [] seen = omega arith
  length-onto (o ∷ rest) seen = omega (arith, length-onto rest (o ∷ seen))

  pub all_seen :
      (ops : List (OperationEnvelope Number)) (x : OperationEnvelope Number)
      → Has x (onto ops []) ↔ Has x ops
  all_seen ops x = (
    λ h. elim (onto_to ops [] x h) [ inl m ↦ m | inr n ↦ absurd n ],
    λ h. onto_from ops [] x (inl h),
  )

  -- The head is that of an operation whose identifier is in the set.
  abbrev pub IsCollected :
      Map (OperationEnvelope Number) → Map (Unit {0}) → EntityHead Number → Type 0
  IsCollected operations heads h =
      (id : List ℕ) × (o : OperationEnvelope Number) × (get id heads ≡ some tt)
      × (get id operations ≡ some o)
      × (h ≡ head_of o)

  -- The heads of known operations are collected.
  pub collect_heads-found :
      (operations : Map (OperationEnvelope Number)) (heads : Map (Unit {0}))
      → ((id : List ℕ)
          → get id heads ≡ some tt
          → (o : OperationEnvelope Number) × (get id operations ≡ some o))
      → (list : List (EntityHead Number)) × (collect_heads operations heads ≡ some list)
        × ((h : EntityHead Number) → Has h list ↔ IsCollected operations heads h)
  unfolding collect_heads
  collect_heads-found operations empty known =
      ([], refl, λ h. (λ m. absurd m, λ p. absurd (some-ne-none tt (sym p.2 ∙ empty_none p.0))))
  collect_heads-found operations (entry k v rest) known =
      let (o, g) = known k (get-here k k v rest refl) in
      let (list, e, exact) =
        collect_heads-found operations rest (λ id q. known id (widen id k v rest q)) in
      (head_of o ∷ list, rw g (rw e refl), λ h. (to o g list exact h, from o g list exact h))
    where
      to :
          (o : OperationEnvelope Number)
          → get k operations ≡ some o
          → (list : List (EntityHead Number))
          → ((h : EntityHead Number) → Has h list ↔ IsCollected operations rest h)
          → (h : EntityHead Number) → Has h (head_of o ∷ list)
          → IsCollected operations (entry k v rest) h
      to o g list exact h (inl p) = (k, o, get-here k k v rest refl, g, p)
      to o g list exact h (inr m) =
          let (id, x, q, f, p) = (exact h).0 m in (id, x, widen id k v rest q, f, p)

      from :
          (o : OperationEnvelope Number)
          → get k operations ≡ some o
          → (list : List (EntityHead Number))
          → ((h : EntityHead Number) → Has h list ↔ IsCollected operations rest h)
          → (h : EntityHead Number) → IsCollected operations (entry k v rest) h
          → Has h (head_of o ∷ list)
      from o g list exact h (id, x, q, f, p) = elim (bytes_discrete id k) [
        | yes c ↦
            inl (p ∙ ap head_of (some-injective x o (sym f ∙ ap (λ j. get j operations) c ∙ g)))
        | no n ↦ inr ((exact h).1 (id, x, sym (get-later id k v rest n) ∙ q, f, p))
      ]
