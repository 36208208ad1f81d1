-- ===== src/Trust/Cbor/Normal.antt =====
-- The values that are decoded: integers are negative or unsigned, texts are UTF-8, and the keys of maps are
-- in the order of their encodings. The depth is that of the value.
use fractonica.Common.{ℕ, suc, ◌<◌, ◌^◌, ◌≡◌, true, List, [], ◌∷◌}
use fractonica.Common.Int.{pos, negsuc}
use fractonica.Common.Result.{ok}
use fractonica.Replication.Bytes.{Before}
use fractonica.Trust.Value.{
  CanonicalValue, Items, Entries, integer, unsigned, float, text, array, map, nil, cons, end, entry,
}
use fractonica.Trust.Cbor.{Platform}
use fractonica.Trust.Cbor.Encode.{KeyedValue, encode_value}
use fractonica.Trust.Cbor.Order.{FirstAfter, IsIncreasing, AreKeyed}

-- The bits of halves and of singles are 16 and 32.
pub record IsPlatform (platform : Platform) : Type 0 where
  pub half_bits : (bits : ℕ) → platform.half_from_f64 bits < 2 ^ 16
  pub single_bits : (bits : ℕ) → platform.single_from_f64 bits < 2 ^ 32

module _ (platform : Platform) where
  abbrev pub KeyAfter : ℕ → CanonicalValue → Entries → Type 0
  KeyAfter depth key end = Unit {0}
  KeyAfter depth key (entry k v rest) =
      (a b : List ℕ)
      → encode_value platform key depth [] ≡ ok a
      → encode_value platform k depth [] ≡ ok b
      → Before a b

  abbrev mutual
    pub IsNormal : ℕ → CanonicalValue → Type 0
    IsNormal depth (integer (pos n)) = ⊥
    IsNormal depth (integer (negsuc n)) = n < 2 ^ 63
    IsNormal depth (unsigned n) = n < 2 ^ 64
    IsNormal depth (float bits) = bits < 2 ^ 64
    IsNormal depth (text value) = platform.is_utf8 value ≡ true
    IsNormal depth (array values) = AreNormal (suc depth) values
    IsNormal depth (map entries) = AreNormalEntries (suc depth) entries
    IsNormal depth _ = Unit {0}

    pub AreNormal : ℕ → Items → Type 0
    AreNormal depth nil = Unit {0}
    AreNormal depth (cons v vs) = IsNormal depth v × AreNormal depth vs

    pub AreNormalEntries : ℕ → Entries → Type 0
    AreNormalEntries depth end = Unit {0}
    AreNormalEntries depth (entry k v rest) =
        IsNormal depth k × IsNormal depth v × KeyAfter depth k rest × AreNormalEntries depth rest

  pub AreKeyed-IsIncreasing :
      (es : Entries) (depth : ℕ) (list : List KeyedValue)
      → AreNormalEntries depth es
      → AreKeyed platform depth es list
      → IsIncreasing list
  AreKeyed-IsIncreasing end depth [] n h = tt
  AreKeyed-IsIncreasing end depth (x ∷ xs) n h = absurd h
  AreKeyed-IsIncreasing (entry k v rest) depth [] n h = absurd h
  AreKeyed-IsIncreasing (entry k v rest) depth (x ∷ xs) (_, _, a, n) (e, _, h) =
      (first rest xs a h, AreKeyed-IsIncreasing rest depth xs n h)
    where
      first :
          (es : Entries) (list : List KeyedValue)
          → KeyAfter depth k es
          → AreKeyed platform depth es list
          → FirstAfter x.key list
      first end [] a h = tt
      first end (y ∷ ys) a h = absurd h
      first (entry k' v' es) [] a h = absurd h
      first (entry k' v' es) (y ∷ ys) a (e', _, _) = a x.key y.key e e'
