-- ===== src/DataModel/Reducer/Tests.antt =====
-- A first version and two concurrent changes of it.
use fractonica.Common.{ℕ, dec_lt, ◌≡◌, refl, ◌↔◌, inl, inr, List, [], ◌∷◌, Option, some}
use fractonica.Common.Int.{pos}
use fractonica.Common.Members.{Has}
use fractonica.Common.Result.{ok}
use fractonica.DataModel.{tag, Outcome}
use fractonica.DataModel.Documents.{tombstone}
use fractonica.DataModel.Reducer.{
  OperationEnvelope, EntityHead, ReducedEntity, head_of, new, apply, reduce_entity,
}
use fractonica.DataModel.Reducer.Represents.{IsOrdered, IsAdmissible, Represents, next}
use fractonica.DataModel.Reducer.Steps.{apply-Represents}
use fractonica.DataModel.Reducer.Reduces.{
  IsHeadOf, new-Represents, reduce_entity-heads, reduce_entity-IsOrdered,
}
use fractonica.DataModel.Reducer.Order.{reduce_entity-same_members}

abbrev Operation : Type 0
Operation = OperationEnvelope ℕ

abbrev operation : ℕ → List (List ℕ) → Operation
operation id parents = record {
  protocol_version = 1;
  operation_id = id ∷ [];
  space_id = 7 ∷ [];
  actor_id = 8 ∷ [];
  entity_id = 9 ∷ [];
  schema = tag;
  causal_parents = parents;
  authorization = [];
  occurred_at_unix_ms = pos id;
  nonce = [];
  body = tombstone;
  cose_sign1 = [];
}

abbrev accept : Operation → Outcome (Unit {0})
accept o = ok tt

abbrev root : Operation
root = operation 1 []

abbrev left : Operation
left = operation 2 ((1 ∷ []) ∷ [])

abbrev right : Operation
right = operation 3 ((1 ∷ []) ∷ [])

abbrev one_order : List Operation
one_order = root ∷ left ∷ right ∷ []

abbrev other_order : List Operation
other_order = root ∷ right ∷ left ∷ []

abbrev result : Option (ReducedEntity ℕ)
result = some (record {
  space_id = 7 ∷ [];
  entity_id = 9 ∷ [];
  schema = tag;
  operation_count = 3;
  heads = head_of left ∷ head_of right ∷ [];
})

reduced : reduce_entity accept (7 ∷ []) (9 ∷ []) tag one_order ≡ ok result
unfolding reduce_entity dec_lt
reduced = refl

reduced_other : reduce_entity accept (7 ∷ []) (9 ∷ []) tag other_order ≡ ok result
unfolding reduce_entity dec_lt
reduced_other = refl

same_operations : (x : Operation) → Has x one_order ↔ Has x other_order
same_operations x = (over, back)
  where
    over : Has x one_order → Has x other_order
    over (inl e) = inl e
    over (inr (inl e)) = inr (inr (inl e))
    over (inr (inr (inl e))) = inr (inl e)
    over (inr (inr (inr h))) = absurd h

    back : Has x other_order → Has x one_order
    back (inl e) = inl e
    back (inr (inl e)) = inr (inr (inl e))
    back (inr (inr (inl e))) = inr (inl e)
    back (inr (inr (inr h))) = absurd h

reduce_entity-same_members_example : result ≡ result
reduce_entity-same_members_example =
    reduce_entity-same_members accept (7 ∷ []) (9 ∷ []) tag one_order other_order result result
      same_operations reduced reduced_other

reduce_entity-heads_example :
    (r : ReducedEntity ℕ) × (result ≡ some r)
    × (r.operation_count ≡ 3)
    × ((h : EntityHead ℕ) → Has h r.heads ↔ IsHeadOf one_order h)
reduce_entity-heads_example =
    reduce_entity-heads accept (7 ∷ []) (9 ∷ []) tag one_order result reduced

reduce_entity-IsOrdered_example :
    ((x : Option (ReducedEntity ℕ)) × (reduce_entity accept (7 ∷ []) (9 ∷ []) tag one_order ≡ ok x))
    ↔ IsOrdered accept (7 ∷ []) (9 ∷ []) tag [] one_order
reduce_entity-IsOrdered_example = reduce_entity-IsOrdered accept (7 ∷ []) (9 ∷ []) tag one_order

applied : apply accept (new (7 ∷ []) (9 ∷ []) tag) root ≡ ok (next (new (7 ∷ []) (9 ∷ []) tag) root)
unfolding new apply dec_lt
applied = refl

apply-Represents_example :
    IsAdmissible accept (7 ∷ []) (9 ∷ []) tag [] root
    × Represents accept (7 ∷ []) (9 ∷ []) tag (root ∷ []) (next (new (7 ∷ []) (9 ∷ []) tag) root)
apply-Represents_example =
    apply-Represents accept (7 ∷ []) (9 ∷ []) tag [] (new (7 ∷ []) (9 ∷ []) tag)
      (new-Represents accept (7 ∷ []) (9 ∷ []) tag) root (next (new (7 ∷ []) (9 ∷ []) tag) root)
      applied
