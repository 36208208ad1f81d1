-- ===== src/DataModel/Reducer/Represents.antt =====
-- The abstract state of a reducer, the operations that it has applied, and the states that represent it.
use fractonica.Common.{ℕ, ◌≡◌, ◌↔◌, List, [], ◌∷◌, length, some}
use fractonica.Common.Members.{Has}
use fractonica.Common.Result.{ok}
use fractonica.DataModel.{EntitySchema, Outcome}
use fractonica.DataModel.Maps.{get, put, size}
use fractonica.DataModel.Maps.Sorted.{IsSorted}
use fractonica.DataModel.Reducer.{OperationEnvelope, EntityReducer, remove_all}

module _ {Number : Type 0} where
  -- Some operation of the list has the identifier.
  abbrev pub IsKnown : List (OperationEnvelope Number) → List ℕ → Type 0
  IsKnown seen id = (o : OperationEnvelope Number) × Has o seen × (o.operation_id ≡ id)

  -- An operation of the list has the identifier, and none names it as a causal parent.
  abbrev pub IsHead : List (OperationEnvelope Number) → List ℕ → Type 0
  IsHead seen id =
      IsKnown seen id × ((o : OperationEnvelope Number) → Has o seen → ¬ Has id o.causal_parents)

  module _ (verify : OperationEnvelope Number → Outcome (Unit {0})) (space_id entity_id : List ℕ)
      (schema : EntitySchema) where
    -- The operation may follow those that were applied.
    pub record IsAdmissible (seen : List (OperationEnvelope Number)) (o : OperationEnvelope Number)
        : Type 0 where
      pub verified : verify o ≡ ok tt
      pub in_space : o.space_id ≡ space_id
      pub in_entity : o.entity_id ≡ entity_id
      pub in_schema : o.schema ≡ schema
      pub fresh : ¬ IsKnown seen o.operation_id
      pub parents : (p : List ℕ) → Has p o.causal_parents → IsKnown seen p

    -- Each operation may follow those before it, the causal parents first.
    abbrev pub IsOrdered :
        List (OperationEnvelope Number) → List (OperationEnvelope Number) → Type 0
    IsOrdered seen [] = Unit {0}
    IsOrdered seen (o ∷ rest) = IsAdmissible seen o × IsOrdered (o ∷ seen) rest

    pub record Represents (seen : List (OperationEnvelope Number)) (r : EntityReducer Number)
        : Type 0 where
      pub space : r.space_id ≡ space_id
      pub entity : r.entity_id ≡ entity_id
      pub kind : r.schema ≡ schema
      pub found :
          (id : List ℕ) (o : OperationEnvelope Number)
          → (get id r.operations ≡ some o) ↔ (Has o seen × (o.operation_id ≡ id))
      pub heads_exact : (id : List ℕ) → (get id r.heads ≡ some tt) ↔ IsHead seen id
      pub own :
          (o : OperationEnvelope Number)
          → Has o seen
          → (o.space_id ≡ space_id) × (o.entity_id ≡ entity_id) × (o.schema ≡ schema)
      pub closed :
          (o : OperationEnvelope Number) (p : List ℕ)
          → Has o seen
          → Has p o.causal_parents
          → IsKnown seen p
      pub count : size r.operations ≡ length seen
      pub operations_sorted : IsSorted r.operations
      pub heads_sorted : IsSorted r.heads

  -- The state after an operation that is admitted.
  abbrev pub next : EntityReducer Number → OperationEnvelope Number → EntityReducer Number
  next r o = record r {
    heads = put o.operation_id tt (remove_all o.causal_parents r.heads);
    operations = put o.operation_id o r.operations;
  }
