-- ===== src/Replication/Hashes.antt =====
-- `bucket_hash`, `node_hash` and `digest_parts`. SHA-256 is a parameter: the digest of a hasher is that
-- of the bytes that it was updated with, one after another.
pub mod Binds
pub mod Lists
use fractonica.Common.{ℕ, zero, suc, ◌/◌, ◌%◌, ◌^◌, List, [], ◌∷◌, ◌++◌, length}
use fractonica.Replication.{InventoryEntry, InventoryChild}

-- "fractonica.inventory.empty.v1\0", and the same with leaf and node for empty
abbrev pub empty_domain : List ℕ
empty_domain =
    102 ∷ 114 ∷ 97 ∷ 99 ∷ 116 ∷ 111 ∷ 110 ∷ 105 ∷ 99 ∷ 97 ∷ 46 ∷ 105 ∷ 110 ∷ 118 ∷ 101 ∷ 110 ∷ 116
    ∷ 111 ∷ 114 ∷ 121 ∷ 46 ∷ 101 ∷ 109 ∷ 112 ∷ 116 ∷ 121 ∷ 46 ∷ 118 ∷ 49 ∷ 0 ∷ []

abbrev pub leaf_domain : List ℕ
leaf_domain =
    102 ∷ 114 ∷ 97 ∷ 99 ∷ 116 ∷ 111 ∷ 110 ∷ 105 ∷ 99 ∷ 97 ∷ 46 ∷ 105 ∷ 110 ∷ 118 ∷ 101 ∷ 110 ∷ 116
    ∷ 111 ∷ 114 ∷ 121 ∷ 46 ∷ 108 ∷ 101 ∷ 97 ∷ 102 ∷ 46 ∷ 118 ∷ 49 ∷ 0 ∷ []

abbrev pub node_domain : List ℕ
node_domain =
    102 ∷ 114 ∷ 97 ∷ 99 ∷ 116 ∷ 111 ∷ 110 ∷ 105 ∷ 99 ∷ 97 ∷ 46 ∷ 105 ∷ 110 ∷ 118 ∷ 101 ∷ 110 ∷ 116
    ∷ 111 ∷ 114 ∷ 121 ∷ 46 ∷ 110 ∷ 111 ∷ 100 ∷ 101 ∷ 46 ∷ 118 ∷ 49 ∷ 0 ∷ []

-- `to_be_bytes` of an integer of the given number of bytes, to which it is cut.
abbrev pub to_be_bytes : ℕ → ℕ → List ℕ
to_be_bytes zero n = []
to_be_bytes (suc size) n = n / 256 ^ size % 256 ∷ to_be_bytes size n

-- `for child in children`
unfoldable pub encode_children : List InventoryChild → List ℕ
encode_children [] = []
encode_children (child ∷ rest) =
    child.digit ∷ (to_be_bytes 8 child.count ++ (child.hash ++ encode_children rest))

module _ (sha256 : List ℕ → List ℕ) where
  unfoldable pub digest_parts : List ℕ → List ℕ → List ℕ → ℕ → List ℕ → List ℕ
  digest_parts domain namespace prefix count payload = sha256 (
      domain
      ++ (to_be_bytes 2 (length namespace)
          ++ (namespace
              ++ (to_be_bytes 2 (length prefix) ++ (prefix ++ (to_be_bytes 8 count ++ payload))))))

  unfoldable pub leaf_hash : List ℕ → InventoryEntry → List ℕ
  leaf_hash namespace entry = sha256 (
      leaf_domain
      ++ (to_be_bytes 2 (length namespace) ++ (namespace ++ (entry.key ++ entry.value_digest))))

  -- `for entry in entries`
  unfoldable pub leaves : List ℕ → List InventoryEntry → List ℕ
  unfolding leaf_hash
  leaves namespace [] = []
  leaves namespace (entry ∷ rest) = leaf_hash namespace entry ++ leaves namespace rest

  unfoldable pub bucket_hash : List ℕ → List ℕ → List InventoryEntry → List ℕ
  unfolding digest_parts leaves
  bucket_hash namespace prefix [] = digest_parts empty_domain namespace prefix 0 []
  bucket_hash namespace prefix (entry ∷ rest) =
      digest_parts node_domain namespace prefix (length (entry ∷ rest))
        (leaves namespace (entry ∷ rest))

  unfoldable pub node_hash : List ℕ → List ℕ → ℕ → List InventoryChild → List ℕ
  unfolding digest_parts encode_children
  node_hash namespace prefix count children =
      digest_parts node_domain namespace prefix count (encode_children children)
