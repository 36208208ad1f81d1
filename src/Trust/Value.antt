-- ===== src/Trust/Value.antt =====
-- `CanonicalValue`. A `String` is the list of its UTF-8 bytes, and an `f64` its 64 bits. The vectors
-- of values stand in the same block, with their conversions to lists.
use fractonica.Common.{ℕ, ◌/◌, ◌%◌, ◌^◌, ◌==◌, not, ◌≡◌, refl, ap, Bool, List, [], ◌∷◌}
use fractonica.Common.Int.{ℤ}

mutual
  pub data CanonicalValue : Type 0 where
    null : CanonicalValue
    boolean : Bool → CanonicalValue
    integer : ℤ → CanonicalValue
    unsigned : ℕ → CanonicalValue
    float : ℕ → CanonicalValue
    bytes : List ℕ → CanonicalValue
    text : List ℕ → CanonicalValue
    array : Items → CanonicalValue
    map : Entries → CanonicalValue

  pub data Items : Type 0 where
    nil : Items
    cons : CanonicalValue → Items → Items

  pub data Entries : Type 0 where
    end : Entries
    entry : CanonicalValue → CanonicalValue → Entries → Entries

-- `Vec<CanonicalValue>` as a list, and back.
abbrev pub to_list : Items → List CanonicalValue
to_list nil = []
to_list (cons v vs) = v ∷ to_list vs

abbrev pub items : List CanonicalValue → Items
items [] = nil
items (v ∷ vs) = cons v (items vs)

pub to_list-items : (vs : List CanonicalValue) → to_list (items vs) ≡ vs
to_list-items [] = refl
to_list-items (v ∷ vs) = ap (λ r. v ∷ r) (to_list-items vs)

-- `f64::is_finite`: the exponent is not the greatest.
abbrev pub is_finite : ℕ → Bool
is_finite bits = not (bits / 2 ^ 52 % 2 ^ 11 == 2047)

pub items-to_list : (vs : Items) → items (to_list vs) ≡ vs
items-to_list nil = refl
items-to_list (cons v vs) = ap (λ r. cons v r) (items-to_list vs)
