-- ===== src/DataModel/Reducer.antt =====
-- lib.rs: the reduction of the operations on one entity to its causal heads. `OperationEnvelope::verify`,
-- which checks an Ed25519 signature, is a parameter.
pub mod Equality
pub mod Represents
pub mod Heads
pub mod Steps
pub mod Collects
pub mod Reduces
pub mod Order
mod Tests
use fractonica.Common.{ℕ, Bool, true, false, not, ◌||◌, List, [], ◌∷◌, Option, none, some}
use fractonica.Common.Int.{ℤ}
use fractonica.Common.Arrays.{eqb_bytes}
use fractonica.Common.Result.{Result, ok, err, ◌>>=◌, ◌>>◌, refuse}
use fractonica.DataModel.{
  EntitySchema, DataModelError, foreign_space, foreign_entity, foreign_schema,
  duplicate_operation_id, causal_parent_not_preexisting, foreign_causal_parent, Outcome,
}
use fractonica.DataModel.Codes.{as_str}
use fractonica.DataModel.Documents.{OperationBody, tombstone}
use fractonica.DataModel.Maps.{Map, empty, entry, get, put, remove, size}

pub record OperationEnvelope (Number : Type 0) : Type 0 where
  pub protocol_version : ℕ
  pub operation_id : List ℕ
  pub space_id : List ℕ
  pub actor_id : List ℕ
  pub entity_id : List ℕ
  pub schema : EntitySchema
  pub causal_parents : List (List ℕ)
  pub authorization : List (List ℕ)
  pub occurred_at_unix_ms : ℤ
  pub nonce : List ℕ
  pub body : OperationBody Number
  pub cose_sign1 : List ℕ

pub record EntityHead (Number : Type 0) : Type 0 where
  pub operation_id : List ℕ
  pub actor_id : List ℕ
  pub occurred_at_unix_ms : ℤ
  pub body : OperationBody Number

pub record ReducedEntity (Number : Type 0) : Type 0 where
  pub space_id : List ℕ
  pub entity_id : List ℕ
  pub schema : EntitySchema
  pub operation_count : ℕ
  pub heads : List (EntityHead Number)

pub record EntityReducer (Number : Type 0) : Type 0 where
  pub space_id : List ℕ
  pub entity_id : List ℕ
  pub schema : EntitySchema
  pub operations : Map (OperationEnvelope Number)
  pub heads : Map (Unit {0})

-- `==` of schemas, which have different names.
abbrev pub eqb_schema : EntitySchema → EntitySchema → Bool
eqb_schema a b = eqb_bytes (as_str a) (as_str b)

abbrev pub is_some : {A : Type 0} → Option A → Bool
is_some none = false
is_some (some a) = true

unfoldable pub remove_all : List (List ℕ) → Map (Unit {0}) → Map (Unit {0})
unfolding remove
remove_all [] heads = heads
remove_all (parent_id ∷ rest) heads = remove_all rest (remove parent_id heads)

module _ {Number : Type 0} where
  unfoldable pub new : List ℕ → List ℕ → EntitySchema → EntityReducer Number
  new space_id entity_id schema = record {
    space_id = space_id;
    entity_id = entity_id;
    schema = schema;
    operations = empty;
    heads = empty;
  }

  -- The three fields of a parent differ from those of the operation.
  abbrev pub is_foreign : OperationEnvelope Number → OperationEnvelope Number → Bool
  is_foreign parent operation =
      not (eqb_bytes parent.space_id operation.space_id)
      || (not (eqb_bytes parent.entity_id operation.entity_id)
          || not (eqb_schema parent.schema operation.schema))

  -- One round of the first loop of `apply`.
  abbrev pub check_parent :
      OperationEnvelope Number → List ℕ → Option (OperationEnvelope Number) → Outcome (Unit {0})
  check_parent operation parent_id none =
      err (causal_parent_not_preexisting operation.operation_id parent_id)
  check_parent operation parent_id (some parent) =
      refuse (is_foreign parent operation) (foreign_causal_parent parent_id)

  -- The loops of `apply` over the causal parents.
  unfoldable pub check_parents :
      Map (OperationEnvelope Number) → OperationEnvelope Number → List (List ℕ) → Outcome (Unit {0})
  unfolding get as_str
  check_parents operations operation [] = ok tt
  check_parents operations operation (parent_id ∷ rest) =
      check_parent operation parent_id (get parent_id operations)
      >> check_parents operations operation rest

  module _ (verify : OperationEnvelope Number → Outcome (Unit {0})) where
    unfoldable pub apply :
        EntityReducer Number → OperationEnvelope Number → Outcome (EntityReducer Number)
    unfolding as_str get put check_parents remove_all
    apply reducer operation = do
      verify operation
      refuse (not (eqb_bytes operation.space_id reducer.space_id))
          (foreign_space reducer.space_id operation.space_id)
      refuse (not (eqb_bytes operation.entity_id reducer.entity_id))
          (foreign_entity reducer.entity_id operation.entity_id)
      refuse (not (eqb_schema operation.schema reducer.schema))
          (foreign_schema reducer.schema operation.schema)
      refuse (is_some (get operation.operation_id reducer.operations))
          (duplicate_operation_id operation.operation_id)
      check_parents reducer.operations operation operation.causal_parents
      ok (record reducer {
        heads = put operation.operation_id tt (remove_all operation.causal_parents reducer.heads);
        operations = put operation.operation_id operation reducer.operations;
      })

    -- `for operation in operations { reducer.apply(operation)?; }`
    unfoldable pub apply_all :
        EntityReducer Number → List (OperationEnvelope Number) → Outcome (EntityReducer Number)
    unfolding apply
    apply_all reducer [] = ok reducer
    apply_all reducer (operation ∷ rest) = apply reducer operation >>= λ next. apply_all next rest

  abbrev pub head_of : OperationEnvelope Number → EntityHead Number
  head_of operation = record {
    operation_id = operation.operation_id;
    actor_id = operation.actor_id;
    occurred_at_unix_ms = operation.occurred_at_unix_ms;
    body = operation.body;
  }

  -- The head of an operation that is found, before the others; `expect` panics otherwise.
  abbrev pub and_head :
      Option (OperationEnvelope Number)
      → Option (List (EntityHead Number))
      → Option (List (EntityHead Number))
  and_head (some operation) (some rest) = some (head_of operation ∷ rest)
  and_head _ _ = none

  unfoldable pub collect_heads :
      Map (OperationEnvelope Number) → Map (Unit {0}) → Option (List (EntityHead Number))
  unfolding get
  collect_heads operations empty = some []
  collect_heads operations (entry operation_id _ rest) =
      and_head (get operation_id operations) (collect_heads operations rest)

  abbrev pub reduced_with : EntityReducer Number → List (EntityHead Number) → ReducedEntity Number
  reduced_with reducer heads = record {
    space_id = reducer.space_id;
    entity_id = reducer.entity_id;
    schema = reducer.schema;
    operation_count = size reducer.operations;
    heads = heads;
  }

  abbrev pub with_heads :
      EntityReducer Number → Option (List (EntityHead Number)) → Option (ReducedEntity Number)
  with_heads reducer none = none
  with_heads reducer (some heads) = some (reduced_with reducer heads)

  -- `none` is the panic.
  unfoldable pub finish : EntityReducer Number → Option (ReducedEntity Number)
  unfolding collect_heads
  finish reducer = with_heads reducer (collect_heads reducer.operations reducer.heads)

  unfoldable pub reduce_entity :
      (OperationEnvelope Number → Outcome (Unit {0}))
      → List ℕ
      → List ℕ
      → EntitySchema
      → List (OperationEnvelope Number)
      → Outcome (Option (ReducedEntity Number))
  unfolding new apply_all finish
  reduce_entity verify space_id entity_id schema operations = do
    reducer ← apply_all verify (new space_id entity_id schema) operations
    ok (finish reducer)
