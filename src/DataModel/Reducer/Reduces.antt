-- ===== src/DataModel/Reducer/Reduces.antt =====
-- `reduce_entity`: when it succeeds, and what the heads are.
use fractonica.Common.{
  ℕ, ◌≡◌, refl, sym, ap, subst, ◌∙◌, ◌↔◌, List, [], ◌∷◌, length, arith, Option, some,
}
use mathlib.Core.Option.{some-ne-none}
use fractonica.Common.Members.{Has}
use fractonica.Common.Result.{ok, >>=-ok, ok-injective}
use fractonica.DataModel.{EntitySchema, Outcome}
use fractonica.DataModel.Maps.{get}
use fractonica.DataModel.Reducer.{
  OperationEnvelope, EntityHead, ReducedEntity, EntityReducer, new, apply, apply_all, head_of,
  reduced_with, finish, reduce_entity,
}
use fractonica.DataModel.Reducer.Collects.{
  onto, length-onto, all_seen, IsCollected, collect_heads-found,
}
use fractonica.DataModel.Reducer.Represents.{IsOrdered, Represents, next}
use fractonica.DataModel.Reducer.Steps.{apply-IsAdmissible, IsAdmissible-apply, next-Represents}

module _ {Number : Type 0} where
  -- A head of the list: an operation of it that no operation of it names as a causal parent.
  abbrev pub IsHeadOf : List (OperationEnvelope Number) → EntityHead Number → Type 0
  IsHeadOf ops h =
      (o : OperationEnvelope Number) × Has o ops
      × (h ≡ head_of o)
      × ((x : OperationEnvelope Number) → Has x ops → ¬ Has o.operation_id x.causal_parents)

  module _ (verify : OperationEnvelope Number → Outcome (Unit {0})) (space_id entity_id : List ℕ)
      (schema : EntitySchema) where
    pub new-Represents :
        Represents verify space_id entity_id schema [] (new space_id entity_id schema)
    unfolding new get
    new-Represents = record {
      space = refl;
      entity = refl;
      kind = refl;
      found = λ id o. (λ e. absurd (some-ne-none o (sym e)), λ p. absurd p.0);
      heads_exact = λ id. (λ e. absurd (some-ne-none tt (sym e)), λ p. absurd p.0.1);
      own = λ o h. absurd h;
      closed = λ o p h m. absurd h;
      count = refl;
      operations_sorted = tt;
      heads_sorted = tt;
    }

    IsOrdered-apply_all :
        (ops seen : List (OperationEnvelope Number)) (r : EntityReducer Number)
        → Represents verify space_id entity_id schema seen r
        → IsOrdered verify space_id entity_id schema seen ops
        → (r' : EntityReducer Number) × (apply_all verify r ops ≡ ok r')
    unfolding apply_all
    IsOrdered-apply_all [] seen r rep h = (r, refl)
    IsOrdered-apply_all (o ∷ rest) seen r rep (h, hs) =
        let (r', e) =
          IsOrdered-apply_all rest (o ∷ seen) (next r o)
            (next-Represents verify space_id entity_id schema seen r rep o h) hs in
        (r', rw (apply-IsAdmissible verify space_id entity_id schema seen r rep o h) e)

    apply_all-IsOrdered :
        (ops seen : List (OperationEnvelope Number)) (r r' : EntityReducer Number)
        → Represents verify space_id entity_id schema seen r
        → apply_all verify r ops ≡ ok r'
        → IsOrdered verify space_id entity_id schema seen ops
          × Represents verify space_id entity_id schema (onto ops seen) r'
    unfolding apply_all
    apply_all-IsOrdered [] seen r r' rep e =
        (tt, subst (Represents verify space_id entity_id schema seen) (ok-injective e) rep)
    apply_all-IsOrdered (o ∷ rest) seen r r' rep e =
        let (x, p, q) = >>=-ok (apply verify r o) (λ y. apply_all verify y rest) e in
        let h = IsAdmissible-apply verify space_id entity_id schema seen r rep o x p in
        let same =
          ok-injective
            (sym p ∙ apply-IsAdmissible verify space_id entity_id schema seen r rep o h) in
        let (hs, rep') =
          apply_all-IsOrdered rest (o ∷ seen) (next r o) r'
            (next-Represents verify space_id entity_id schema seen r rep o h)
            (ap (λ y. apply_all verify y rest) (sym same) ∙ q) in
        ((h, hs), rep')

    reduced_heads :
        (ops : List (OperationEnvelope Number)) (r : EntityReducer Number)
        → Represents verify space_id entity_id schema (onto ops []) r
        → (reduced : ReducedEntity Number) × (finish r ≡ some reduced)
          × (reduced.operation_count ≡ length ops)
          × ((h : EntityHead Number) → Has h reduced.heads ↔ IsHeadOf ops h)
    unfolding finish
    reduced_heads ops r rep =
        let (list, e, exact) = collect_heads-found r.operations r.heads known in
        (
          reduced_with r list,
          rw e refl,
          omega (arith, rep.count, length-onto ops []),
          λ h. (λ m. to h ((exact h).0 m), λ p. (exact h).1 (from h p)),
        )
      where
        known :
            (id : List ℕ)
            → get id r.heads ≡ some tt
            → (o : OperationEnvelope Number) × (get id r.operations ≡ some o)
        known id g = let (o, m, e) = ((rep.heads_exact id).0 g).0 in (o, (rep.found id o).1 (m, e))

        to : (h : EntityHead Number) → IsCollected r.operations r.heads h → IsHeadOf ops h
        to h (id, o, g, f, e) =
            let (m, i) = (rep.found id o).0 f in
            let unnamed = ((rep.heads_exact id).0 g).1 in
            (
              o,
              (all_seen ops o).0 m,
              e,
              λ x n k. unnamed x ((all_seen ops x).1 n) (subst (λ j. Has j x.causal_parents) i k),
            )

        from : (h : EntityHead Number) → IsHeadOf ops h → IsCollected r.operations r.heads h
        from h (o, m, e, unnamed) = (
          o.operation_id,
          o,
          (rep.heads_exact o.operation_id).1
              ((o, (all_seen ops o).1 m, refl), λ x n. unnamed x ((all_seen ops x).0 n)),
          (rep.found o.operation_id o).1 ((all_seen ops o).1 m, refl),
          e,
        )

    pub reduce_entity-state :
        (ops : List (OperationEnvelope Number)) (result : Option (ReducedEntity Number))
        → reduce_entity verify space_id entity_id schema ops ≡ ok result
        → (r : EntityReducer Number) × IsOrdered verify space_id entity_id schema [] ops
          × Represents verify space_id entity_id schema (onto ops []) r
          × (finish r ≡ result)
    unfolding reduce_entity
    reduce_entity-state ops result e =
        let (r, p, q) =
          >>=-ok (apply_all verify (new space_id entity_id schema) ops) (λ y. ok (finish y)) e in
        let (h, rep) =
          apply_all-IsOrdered ops [] (new space_id entity_id schema) r new-Represents p in
        (r, h, rep, ok-injective q)

    -- A reduction that succeeds does not panic, it counts the operations, and its heads are
    -- exactly the operations of the list that no operation of the list names as a causal parent.
    pub reduce_entity-heads :
        (ops : List (OperationEnvelope Number)) (result : Option (ReducedEntity Number))
        → reduce_entity verify space_id entity_id schema ops ≡ ok result
        → (reduced : ReducedEntity Number) × (result ≡ some reduced)
          × (reduced.operation_count ≡ length ops)
          × ((h : EntityHead Number) → Has h reduced.heads ↔ IsHeadOf ops h)
    reduce_entity-heads ops result e =
        let (r, h, rep, f) = reduce_entity-state ops result e in
        let (reduced, g, count, exact) = reduced_heads ops r rep in
        (reduced, sym f ∙ g, count, exact)

    -- The reduction of a list succeeds exactly if each of its operations is verified, is of the
    -- space, entity and schema of the reduction, has an identifier that none before it has, and
    -- names only causal parents that are before it.
    pub reduce_entity-IsOrdered :
        (ops : List (OperationEnvelope Number))
        → ((result : Option (ReducedEntity Number)) × (reduce_entity verify space_id entity_id
                schema ops
              ≡ ok result))
          ↔ IsOrdered verify space_id entity_id schema [] ops
    unfolding reduce_entity
    reduce_entity-IsOrdered ops = (to, from)
      where
        to :
            (result : Option (ReducedEntity Number)) × (reduce_entity verify space_id entity_id
                  schema ops
                ≡ ok result)
            → IsOrdered verify space_id entity_id schema [] ops
        to (result, e) = (reduce_entity-state ops result e).1

        from :
            IsOrdered verify space_id entity_id schema [] ops
            → (result : Option (ReducedEntity Number)) × (reduce_entity verify space_id entity_id
                  schema ops
                ≡ ok result)
        from h =
            let (r, e) =
              IsOrdered-apply_all ops [] (new space_id entity_id schema) new-Represents h in
            (finish r, rw e refl)
