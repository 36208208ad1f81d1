-- ===== src/Trust/Cbor/Order.antt =====
-- The entries of a map whose encoded keys are in order are written in their order.
use fractonica.Common.{
  ℕ, suc, ◌+◌, ltb, ◌≡◌, refl, ap, subst, Bool, true, false, List, [], ◌∷◌, length, Option, none,
  some,
}
use fractonica.Common.Arrays.{eqb_bytes, eqb_bytes-equal}
use fractonica.Common.Result.{ok, refuse, >>-ok, >>=-ok, ok-injective}
use fractonica.Replication.Bytes.{
  Before, Before-irrefl, Before-trans, Before-ne, Comparison, cmp, less, equal, greater,
}
use fractonica.Trust.Value.{Entries, end, entry}
use fractonica.Trust.Cbor.{Platform, encoded_too_large, max_canonical_bytes}
use fractonica.Trust.Cbor.Encode.{
  KeyedValue, insert_entry, sort_entries, any_repeated, entry_count, encode_value, encode_keys,
}
use fractonica.Trust.Cbor.Decode.{out_of_order}

abbrev pub FirstAfter : List ℕ → List KeyedValue → Type 0
FirstAfter key [] = Unit {0}
FirstAfter key (x ∷ xs) = Before key x.key

abbrev pub IsIncreasing : List KeyedValue → Type 0
IsIncreasing [] = Unit {0}
IsIncreasing (x ∷ xs) = FirstAfter x.key xs × IsIncreasing xs

cmp-Before : (a b : List ℕ) → Before a b → (h : Before a b) × (cmp a b ≡ less h)
cmp-Before a b h = by_order (cmp a b)
  where
    by_order : (c : Comparison a b) → (h : Before a b) × (c ≡ less h)
    by_order (less g) = (g, refl)
    by_order (equal e) = absurd (Before-ne h e)
    by_order (greater g) = absurd (Before-irrefl a (Before-trans a b a h g))

pub sort_entries-IsIncreasing : (xs : List KeyedValue) → IsIncreasing xs → sort_entries xs ≡ xs
unfolding sort_entries insert_entry
sort_entries-IsIncreasing [] h = refl
sort_entries-IsIncreasing (x ∷ []) h = refl
sort_entries-IsIncreasing (x ∷ y ∷ ys) (b, h) =
    let (g, e) = cmp-Before x.key y.key b in
    rw (sort_entries-IsIncreasing (y ∷ ys) h) (rw (e, insert_entry) refl)

pub any_repeated-IsIncreasing : (xs : List KeyedValue) → IsIncreasing xs → any_repeated xs ≡ false
any_repeated-IsIncreasing [] h = refl
any_repeated-IsIncreasing (x ∷ []) h = refl
any_repeated-IsIncreasing (x ∷ y ∷ ys) (b, h) =
    rw (differ (eqb_bytes x.key y.key) refl) (any_repeated-IsIncreasing (y ∷ ys) h)
  where
    differ : (t : Bool) → eqb_bytes x.key y.key ≡ t → eqb_bytes x.key y.key ≡ false
    differ true e = absurd (Before-ne b (eqb_bytes-equal x.key y.key e))
    differ false e = e

-- The key may follow the one before it, if there is one.
abbrev pub May : Option (List ℕ) → List ℕ → Type 0
May none key = Unit {0}
May (some previous) key = Before previous key

pub out_of_order-May :
    (previous : Option (List ℕ)) (key : List ℕ)
    → May previous key
    → out_of_order previous key ≡ false
unfolding out_of_order
out_of_order-May none key h = refl
out_of_order-May (some previous) key h = let (g, e) = cmp-Before previous key h in rw e refl

module _ (platform : Platform) where
  -- Every entry holds the encoding of its key and the writing of its value.
  abbrev pub AreKeyed : ℕ → Entries → List KeyedValue → Type 0
  AreKeyed depth end [] = Unit {0}
  AreKeyed depth end (x ∷ xs) = ⊥
  AreKeyed depth (entry k v rest) [] = ⊥
  AreKeyed depth (entry k v rest) (x ∷ xs) =
      (encode_value platform k depth [] ≡ ok x.key)
      × (x.write ≡ encode_value platform v depth)
      × AreKeyed depth rest xs

  pub encode_keys-AreKeyed :
      (es : Entries) (depth total : ℕ) (list : List KeyedValue)
      → encode_keys platform es depth total ≡ ok list
      → AreKeyed depth es list
  unfolding encode_value
  encode_keys-AreKeyed end depth total list h = subst (AreKeyed depth end) (ok-injective h) tt
  encode_keys-AreKeyed (entry k v rest) depth total list h =
      let (key, e, h1) = >>=-ok (encode_value platform k depth []) _ h in
      let (_, h2) =
        >>-ok
          (refuse (ltb max_canonical_bytes (total + length key))
            (encoded_too_large (total + length key) max_canonical_bytes))
          _ h1 in
      let (others, g, h3) =
        >>=-ok (encode_keys platform rest depth (total + length key))
          (λ others. ok (record { key = key; write = encode_value platform v depth } ∷ others))
          h2 in
      subst (AreKeyed depth (entry k v rest)) (ok-injective h3)
        (e, refl, encode_keys-AreKeyed rest depth (total + length key) others g)

  pub entry_count-AreKeyed :
      (es : Entries) (depth : ℕ) (list : List KeyedValue)
      → AreKeyed depth es list
      → length list ≡ entry_count es
  entry_count-AreKeyed end depth [] h = refl
  entry_count-AreKeyed end depth (x ∷ xs) h = absurd h
  entry_count-AreKeyed (entry k v rest) depth [] h = absurd h
  entry_count-AreKeyed (entry k v rest) depth (x ∷ xs) (_, _, h) =
      ap suc (entry_count-AreKeyed rest depth xs h)
