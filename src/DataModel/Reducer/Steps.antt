-- ===== src/DataModel/Reducer/Steps.antt =====
-- `apply` takes the operations that are admitted, and no others, to the state that represents them.
use fractonica.Common.{
  ℕ, suc, ◌≡◌, refl, sym, ap, subst, ◌∙◌, ◌⊎◌, inl, inr, false, not, List, [], ◌∷◌, Option, none,
  some,
}
use mathlib.Core.Option.{some-injective, some-ne-none}
use fractonica.Common.Members.{Has}
use fractonica.Common.Arrays.{eqb_bytes, not-false, equal-eqb_bytes, eqb_bytes-equal}
use fractonica.Common.Result.{ok, refuse, >>-ok, refuse-ok, ok-injective}
use fractonica.Replication.Bytes.{bytes_discrete}
use fractonica.DataModel.{
  EntitySchema, DataModelError, Outcome, foreign_space, foreign_entity, foreign_schema,
  duplicate_operation_id,
}
use fractonica.DataModel.Maps.{get, put}
use fractonica.DataModel.Maps.Lookup.{get-put, get-put-other, size-put}
use fractonica.DataModel.Maps.Sorted.{put-IsSorted}
use fractonica.DataModel.Reducer.{
  OperationEnvelope, EntityReducer, eqb_schema, is_some, is_foreign, check_parent, check_parents,
  remove_all, apply,
}
use fractonica.DataModel.Reducer.Equality.{equal-eqb_schema, eqb_schema-equal}
use fractonica.DataModel.Reducer.Represents.{IsKnown, IsAdmissible, Represents, next}
use fractonica.DataModel.Reducer.Heads.{remove_all-IsSorted, next_heads}

pub Option-cases : {A : Type 0} (o : Option A) → (o ≡ none) ⊎ ((a : A) × (o ≡ some a))
Option-cases none = inl refl
Option-cases (some a) = inr (a, refl)

same_bytes : (a b : List ℕ) (e : DataModelError) → refuse (not (eqb_bytes a b)) e ≡ ok tt → a ≡ b
same_bytes a b e h = eqb_bytes-equal a b (not-false (eqb_bytes a b) (refuse-ok _ _ h))

module _ {Number : Type 0} (verify : OperationEnvelope Number → Outcome (Unit {0}))
    (space_id entity_id : List ℕ) (schema : EntitySchema) (seen : List (OperationEnvelope Number))
    (r : EntityReducer Number) (rep : Represents verify space_id entity_id schema seen r)
    (o : OperationEnvelope Number) where
  absent : ¬ IsKnown seen o.operation_id → get o.operation_id r.operations ≡ none
  absent n = elim (Option-cases (get o.operation_id r.operations)) [
    | inl e ↦ e
    | inr p ↦
        let (o', e) = p in
        absurd
          (n (o', ((rep.found o.operation_id o').0 e).0, ((rep.found o.operation_id o').0 e).1))
  ]

  -- A parent that was applied is of the same space, entity and schema.
  parent_near :
      (parent : OperationEnvelope Number)
      → Has parent seen
      → o.space_id ≡ space_id
      → o.entity_id ≡ entity_id
      → o.schema ≡ schema
      → is_foreign parent o ≡ false
  parent_near parent m s e k =
      let (s', e', k') = rep.own parent m in
      rw (equal-eqb_bytes parent.space_id o.space_id (s' ∙ sym s)) (
        rw (equal-eqb_bytes parent.entity_id o.entity_id (e' ∙ sym e))
          (rw (equal-eqb_schema parent.schema o.schema (k' ∙ sym k)) refl))

  parents_pass :
      (ids : List (List ℕ))
      → o.space_id ≡ space_id
      → o.entity_id ≡ entity_id
      → o.schema ≡ schema
      → ((p : List ℕ) → Has p ids → IsKnown seen p)
      → check_parents r.operations o ids ≡ ok tt
  unfolding check_parents
  parents_pass [] s e k known = refl
  parents_pass (p ∷ ids) s e k known =
      let (parent, m, i) = known p (inl refl) in
      rw ((rep.found p parent).1 (m, i))
        (rw (parent_near parent m s e k) (parents_pass ids s e k (λ q h. known q (inr h))))

  -- An operation that is admitted is applied.
  pub apply-IsAdmissible :
      IsAdmissible verify space_id entity_id schema seen o → apply verify r o ≡ ok (next r o)
  unfolding apply
  apply-IsAdmissible h = rw h.verified (
      rw (equal-eqb_bytes o.space_id r.space_id (h.in_space ∙ sym rep.space)) (
        rw (equal-eqb_bytes o.entity_id r.entity_id (h.in_entity ∙ sym rep.entity)) (
          rw (equal-eqb_schema o.schema r.schema (h.in_schema ∙ sym rep.kind)) (
            rw (absent h.fresh) (
              rw (parents_pass o.causal_parents h.in_space h.in_entity h.in_schema h.parents)
                refl)))))

  parents-IsKnown :
      (ids : List (List ℕ))
      → check_parents r.operations o ids ≡ ok tt
      → (p : List ℕ) → Has p ids
      → IsKnown seen p
  unfolding check_parents
  parents-IsKnown (id ∷ ids) h p m =
      let (first, rest) =
        >>-ok (check_parent o id (get id r.operations)) (check_parents r.operations o ids) h in
      elim m [
        | inl e ↦ elim (Option-cases (get id r.operations)) [
          | inl g ↦ absurd (no_parent (get id r.operations) g first)
          | inr q ↦
              let (parent, g) = q in
              (parent, ((rep.found id parent).0 g).0, ((rep.found id parent).0 g).1 ∙ sym e)
        ]
        | inr n ↦ parents-IsKnown ids rest p n
      ]
    where
      no_parent :
          (found : Option (OperationEnvelope Number))
          → found ≡ none
          → ¬ (check_parent o id found ≡ ok tt)
      no_parent none g f = absurd cc
      no_parent (some x) g f = some-ne-none x g
  parents-IsKnown [] h p m = absurd m

  unknown : is_some (get o.operation_id r.operations) ≡ false → ¬ IsKnown seen o.operation_id
  unknown h (x, m, e) =
      absurd (someone (get o.operation_id r.operations) ((rep.found o.operation_id x).1 (m, e)) h)
    where
      someone :
          (found : Option (OperationEnvelope Number)) → found ≡ some x → ¬ (is_some found ≡ false)
      someone none g f = some-ne-none x (sym g)
      someone (some y) g f = absurd cc

  -- An operation that is applied is admitted.
  pub IsAdmissible-apply :
      (r' : EntityReducer Number)
      → apply verify r o ≡ ok r'
      → IsAdmissible verify space_id entity_id schema seen o
  unfolding apply
  IsAdmissible-apply r' h =
      let (verified, h1) = >>-ok (verify o) _ h in
      let (in_space, h2) =
        >>-ok (refuse (not (eqb_bytes o.space_id r.space_id)) (foreign_space r.space_id o.space_id))
          _ h1 in
      let (in_entity, h3) =
        >>-ok
          (refuse (not (eqb_bytes o.entity_id r.entity_id))
            (foreign_entity r.entity_id o.entity_id))
          _ h2 in
      let (in_schema, h4) =
        >>-ok (refuse (not (eqb_schema o.schema r.schema)) (foreign_schema r.schema o.schema)) _
          h3 in
      let (fresh, h5) =
        >>-ok
          (refuse (is_some (get o.operation_id r.operations))
            (duplicate_operation_id o.operation_id))
          _ h4 in
      let (parents, h6) = >>-ok (check_parents r.operations o o.causal_parents) _ h5 in
      record {
        verified = verified;
        in_space = same_bytes o.space_id r.space_id _ in_space ∙ rep.space;
        in_entity = same_bytes o.entity_id r.entity_id _ in_entity ∙ rep.entity;
        in_schema =
            eqb_schema-equal o.schema r.schema
              (not-false (eqb_schema o.schema r.schema) (refuse-ok _ _ in_schema))
            ∙ rep.kind;
        fresh = unknown (refuse-ok _ _ fresh);
        parents = parents-IsKnown o.causal_parents parents;
      }

  -- The state after it represents what was applied before, and it.
  pub next-Represents :
      IsAdmissible verify space_id entity_id schema seen o
      → Represents verify space_id entity_id schema (o ∷ seen) (next r o)
  next-Represents h = record {
    space = rep.space;
    entity = rep.entity;
    kind = rep.kind;
    found = λ id x. (found_to id x, found_from id x);
    heads_exact =
        next_heads seen r.heads rep.heads_sorted rep.heads_exact rep.closed o h.fresh h.parents;
    own = each_own;
    closed = each_closed;
    count = size-put o.operation_id o r.operations (absent h.fresh) ∙ ap suc rep.count;
    operations_sorted = put-IsSorted o.operation_id o r.operations rep.operations_sorted;
    heads_sorted =
        put-IsSorted o.operation_id tt (remove_all o.causal_parents r.heads)
          (remove_all-IsSorted o.causal_parents r.heads rep.heads_sorted);
  }
    where
      more : (p : List ℕ) → IsKnown seen p → IsKnown (o ∷ seen) p
      more p (x, m, e) = (x, inr m, e)

      each_closed :
          (x : OperationEnvelope Number) (p : List ℕ)
          → Has x (o ∷ seen)
          → Has p x.causal_parents
          → IsKnown (o ∷ seen) p
      each_closed x p (inl e) m = more p (h.parents p (subst (λ y. Has p y.causal_parents) e m))
      each_closed x p (inr q) m = more p (rep.closed x p q m)

      each_own :
          (x : OperationEnvelope Number)
          → Has x (o ∷ seen)
          → (x.space_id ≡ space_id) × (x.entity_id ≡ entity_id) × (x.schema ≡ schema)
      each_own x (inl e) = (
        ap (λ y. y.space_id) e ∙ h.in_space,
        ap (λ y. y.entity_id) e ∙ h.in_entity,
        ap (λ y. y.schema) e ∙ h.in_schema,
      )
      each_own x (inr m) = rep.own x m

      found_to :
          (id : List ℕ) (x : OperationEnvelope Number)
          → get id (put o.operation_id o r.operations) ≡ some x
          → Has x (o ∷ seen) × (x.operation_id ≡ id)
      found_to id x g = elim (bytes_discrete id o.operation_id) [
        | yes e ↦
            let p = some-injective o x (
              sym (get-put o.operation_id o r.operations)
              ∙ ap (λ k. get k (put o.operation_id o r.operations)) (sym e)
              ∙ g) in
            (inl (sym p), ap (λ y. y.operation_id) (sym p) ∙ sym e)
        | no n ↦
            let (m, i) =
              (rep.found id x).0 (sym (get-put-other id o.operation_id o r.operations n) ∙ g) in
            (inr m, i)
      ]

      found_from :
          (id : List ℕ) (x : OperationEnvelope Number)
          → Has x (o ∷ seen) × (x.operation_id ≡ id)
          → get id (put o.operation_id o r.operations) ≡ some x
      found_from id x (inl p, e) =
          ap (λ k. get k (put o.operation_id o r.operations)) (sym e ∙ ap (λ y. y.operation_id) p)
          ∙ get-put o.operation_id o r.operations
          ∙ ap some (sym p)
      found_from id x (inr m, e) =
          get-put-other id o.operation_id o r.operations (λ q. h.fresh (x, m, e ∙ q))
          ∙ (rep.found id x).1 (m, e)

  -- From a state that represents the operations applied before, apply accepts only an operation
  -- that is verified, of the same space, entity and schema, new, and after its causal parents, and
  -- the state that it returns represents that operation with those before it: its map holds
  -- exactly them, and its heads are exactly those that none of them names as a causal parent.
  pub apply-Represents :
      (r' : EntityReducer Number)
      → apply verify r o ≡ ok r'
      → IsAdmissible verify space_id entity_id schema seen o
        × Represents verify space_id entity_id schema (o ∷ seen) r'
  apply-Represents r' e =
      let h = IsAdmissible-apply r' e in
      (
        h,
        subst (Represents verify space_id entity_id schema (o ∷ seen))
            (ok-injective (sym (apply-IsAdmissible h) ∙ e)) (next-Represents h),
      )
