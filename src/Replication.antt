-- ===== src/Replication.antt =====
-- crates/fractonica-replication/src/lib.rs: the data types and constants of the inventories. Arrays and
-- vectors of bytes are lists of numbers; that an array has 32 bytes is IsArray of Common.Arrays.
pub mod Bytes
pub mod Build
pub mod Keys
pub mod Hashes
pub mod Tree
mod Tests
use fractonica.Common.{ℕ, List}

abbrev pub radix : ℕ
radix = 8

abbrev pub bucket_capacity : ℕ
bucket_capacity = 8

abbrev pub key_bytes : ℕ
key_bytes = 32

abbrev pub max_octal_depth : ℕ
max_octal_depth = 86

abbrev pub max_namespace_bytes : ℕ
max_namespace_bytes = 32

pub record InventoryEntry : Type 0 where
  pub key : List ℕ
  pub value_digest : List ℕ

pub record InventoryChild : Type 0 where
  pub digit : ℕ
  pub count : ℕ
  pub hash : List ℕ

pub record InventorySummary : Type 0 where
  pub prefix : List ℕ
  pub count : ℕ
  pub hash : List ℕ
  pub children : List InventoryChild
  pub entries : List InventoryEntry

pub record InventoryTree : Type 0 where
  pub namespace : List ℕ
  pub entries : List InventoryEntry

pub data InventoryError : Type 0 where
  invalid_namespace : InventoryError
  invalid_prefix : InventoryError
  conflicting_entry : List ℕ → InventoryError
