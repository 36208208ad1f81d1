-- ===== src/DataModel/Reducer/Order.antt =====
-- The reduction does not depend on the order of the operations.
use fractonica.Common.{ℕ, ◌≡◌, refl, sym, ap, ◌∙◌, ◌↔◌, List, [], Option, none, some}
use fractonica.Common.Members.{Has}
use fractonica.Common.Result.{ok}
use fractonica.DataModel.{EntitySchema, Outcome}
use fractonica.DataModel.Maps.{get}
use fractonica.DataModel.Maps.Sorted.{IsSorted-ext}
use fractonica.DataModel.Reducer.{
  OperationEnvelope, ReducedEntity, EntityReducer, finish, reduce_entity,
}
use fractonica.DataModel.Reducer.Represents.{IsKnown, IsHead, Represents}
use fractonica.DataModel.Reducer.Collects.{onto, all_seen}
use fractonica.DataModel.Reducer.Reduces.{reduce_entity-state}

-- Values that are found in the same places are the same.
same_found :
    {A : Type 0} (a b : Option A)
    → ((x : A) → a ≡ some x → b ≡ some x)
    → ((x : A) → b ≡ some x → a ≡ some x)
    → a ≡ b
same_found none none f g = refl
same_found none (some y) f g = g y refl
same_found (some x) b f g = sym (f x refl)

module _ {Number : Type 0} (verify : OperationEnvelope Number → Outcome (Unit {0}))
    (space_id entity_id : List ℕ) (schema : EntitySchema) where
  same-IsKnown :
      (seen seen' : List (OperationEnvelope Number))
      → ((x : OperationEnvelope Number) → Has x seen → Has x seen')
      → (id : List ℕ) → IsKnown seen id
      → IsKnown seen' id
  same-IsKnown seen seen' over id (x, m, e) = (x, over x m, e)

  same-IsHead :
      (seen seen' : List (OperationEnvelope Number))
      → ((x : OperationEnvelope Number) → Has x seen ↔ Has x seen')
      → (id : List ℕ) → IsHead seen id
      → IsHead seen' id
  same-IsHead seen seen' same id (k, unnamed) =
      (same-IsKnown seen seen' (λ x. (same x).0) id k, λ x m. unnamed x ((same x).1 m))

  -- States that represent the same operations are the same.
  same_state :
      (seen seen' : List (OperationEnvelope Number)) (r r' : EntityReducer Number)
      → Represents verify space_id entity_id schema seen r
      → Represents verify space_id entity_id schema seen' r'
      → ((x : OperationEnvelope Number) → Has x seen ↔ Has x seen')
      → r ≡ r'
  same_state seen seen' r r' rep rep' same = λ i. record {
    space_id = (rep.space ∙ sym rep'.space) i;
    entity_id = (rep.entity ∙ sym rep'.entity) i;
    schema = (rep.kind ∙ sym rep'.kind) i;
    operations = operations i;
    heads = heads i;
  }
    where
      operations : r.operations ≡ r'.operations
      operations =
          IsSorted-ext r.operations r'.operations rep.operations_sorted rep'.operations_sorted
            (λ id.
              same_found (get id r.operations) (get id r'.operations)
                (λ x e. let (m, i) = (rep.found id x).0 e in (rep'.found id x).1 ((same x).0 m, i))
                (λ x e. let (m, i) = (rep'.found id x).0 e in (rep.found id x).1 ((same x).1 m, i)))

      heads : r.heads ≡ r'.heads
      heads = IsSorted-ext r.heads r'.heads rep.heads_sorted rep'.heads_sorted (λ id.
          same_found (get id r.heads) (get id r'.heads)
            (λ x e.
              (rep'.heads_exact id).1 (same-IsHead seen seen' same id ((rep.heads_exact id).0 e)))
            (λ x e. (rep.heads_exact id).1 (
              same-IsHead seen' seen (λ y. ((same y).1, (same y).0)) id
                ((rep'.heads_exact id).0 e))))

  -- Two lists of the same operations, in whatever orders, for both of which the reduction
  -- succeeds, give the same reduced entity.
  pub reduce_entity-same_members :
      (ops ops' : List (OperationEnvelope Number)) (result result' : Option (ReducedEntity Number))
      → ((x : OperationEnvelope Number) → Has x ops ↔ Has x ops')
      → reduce_entity verify space_id entity_id schema ops ≡ ok result
      → reduce_entity verify space_id entity_id schema ops' ≡ ok result'
      → result ≡ result'
  reduce_entity-same_members ops ops' result result' same e e' =
      let (r, h, rep, f) = reduce_entity-state verify space_id entity_id schema ops result e in
      let (r', h', rep', f') =
        reduce_entity-state verify space_id entity_id schema ops' result' e' in
      sym f
      ∙ ap finish (
          same_state (onto ops []) (onto ops' []) r r' rep rep' (λ x. (
            λ m. (all_seen ops' x).1 ((same x).0 ((all_seen ops x).0 m)),
            λ m. (all_seen ops x).1 ((same x).1 ((all_seen ops' x).0 m)),
          )))
      ∙ f'
