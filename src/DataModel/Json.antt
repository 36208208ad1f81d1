-- ===== src/DataModel/Json.antt =====
-- `serde_json::Value` and its numbers. The numbers are a parameter: a type with the operations of
-- `serde_json::Number` that the crate calls.
use fractonica.Common.{ℕ, Bool, List, Option}
use fractonica.Common.Int.{ℤ}

mutual
  pub data Value (Number : Type 0) : Type 0 where
    null : Value Number
    boolean : Bool → Value Number
    number : Number → Value Number
    string : List ℕ → Value Number
    array : Values Number → Value Number
    object : Members Number → Value Number

  pub data Values (Number : Type 0) : Type 0 where
    nil : Values Number
    cons : Value Number → Values Number → Values Number

  -- A map with text keys, in the order of the keys.
  pub data Members (Number : Type 0) : Type 0 where
    end : Members Number
    member : List ℕ → Value Number → Members Number → Members Number

-- The operations of `serde_json::Number`. An `f64` is its 64 bits.
pub record Numbers : Type 1 where
  pub Number : Type 0
  pub as_i64 : Number → Option ℤ
  pub as_u64 : Number → Option ℕ
  pub as_f64 : Number → Option ℕ
  pub to_string : Number → List ℕ
  pub from_i64 : ℤ → Number
  pub from_u64 : ℕ → Number
  pub from_f64 : ℕ → Option Number
