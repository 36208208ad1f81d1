-- ===== src/DataModel/Maps.antt =====
-- `BTreeMap` with arrays of bytes as keys: its entries in the order of the keys. A `BTreeSet` is the map
-- of its elements to the unit.
pub mod Lookup
pub mod Sorted
use fractonica.Common.{ℕ, suc, List, Option, none, some}
use fractonica.Replication.Bytes.{cmp, less, equal, greater, bytes_discrete}

pub data Map (V : Type 0) : Type 0 where
  empty : Map V
  entry : List ℕ → V → Map V → Map V

module _ {V : Type 0} where
  unfoldable pub get : List ℕ → Map V → Option V
  unfolding bytes_discrete
  get key empty = none
  get key (entry k v rest) = elim (bytes_discrete key k) [ yes _ ↦ some v | no _ ↦ get key rest ]

  unfoldable pub put : List ℕ → V → Map V → Map V
  unfolding cmp
  put key value empty = entry key value empty
  put key value (entry k v rest) = elim (cmp key k) [
    | less _ ↦ entry key value (entry k v rest)
    | equal _ ↦ entry key value rest
    | greater _ ↦ entry k v (put key value rest)
  ]

  unfoldable pub remove : List ℕ → Map V → Map V
  unfolding bytes_discrete
  remove key empty = empty
  remove key (entry k v rest) = elim (bytes_discrete key k) [
    | yes _ ↦ rest
    | no _ ↦ entry k v (remove key rest)
  ]

  abbrev pub size : Map V → ℕ
  size empty = 0
  size (entry k v rest) = suc (size rest)
