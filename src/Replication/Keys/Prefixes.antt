-- ===== src/Replication/Keys/Prefixes.antt =====
-- Prefixes that are longer by one digit, and which prefixes are valid.
use fractonica.Common.{
  ℕ, suc, ◌+◌, ◌≤◌, ◌<◌, ◌≡◌, refl, ap, ◌∙◌, Bool, true, false, not, ◌&&◌, ◌||◌, ◌==◌, ltb, leb,
  List, [], ◌∷◌, ◌++◌, length, arith, length-append,
}
use fractonica.Common.Result.{ok, refuse, ◌>>=◌}
use fractonica.Replication.{invalid_prefix}
use fractonica.Replication.Keys.{
  octal_digit, agrees, key_has_prefix, any_large, ends_whole, validate_prefix,
}

&&-assoc : (a b c : Bool) → (a && (b && c)) ≡ ((a && b) && c)
&&-assoc true b c = refl
&&-assoc false b c = refl

||-assoc : (a b c : Bool) → (a || (b || c)) ≡ ((a || b) || c)
||-assoc true b c = refl
||-assoc false b c = refl

&&-true : (a : Bool) → (a && true) ≡ a
&&-true true = refl
&&-true false = refl

||-false : (a : Bool) → (a || false) ≡ a
||-false true = refl
||-false false = refl

agrees-snoc :
    (key : List ℕ) (depth : ℕ) (prefix : List ℕ) (d : ℕ)
    → agrees key depth (prefix ++ (d ∷ []))
      ≡ (agrees key depth prefix && (octal_digit key (depth + length prefix) == d))
unfolding agrees
agrees-snoc key depth [] d =
    &&-true (octal_digit key depth == d) ∙ ap (λ n. octal_digit key n == d) (add_zero depth)
  where
    add_zero : (n : ℕ) → n ≡ n + 0
    add_zero n = omega arith
agrees-snoc key depth (x ∷ prefix) d =
    ap (λ b. (octal_digit key depth == x) && b) (agrees-snoc key (depth + 1) prefix d)
    ∙ &&-assoc (octal_digit key depth == x) (agrees key (depth + 1) prefix)
        (octal_digit key (depth + 1 + length prefix) == d)
    ∙ ap (λ n. (agrees key depth (x ∷ prefix)) && (octal_digit key n == d)) place
  where
    place : depth + 1 + length prefix ≡ depth + suc (length prefix)
    place = omega arith

pub key_has_prefix-snoc :
    (key : List ℕ) (prefix : List ℕ) (d : ℕ)
    → key_has_prefix key (prefix ++ (d ∷ []))
      ≡ (key_has_prefix key prefix && (octal_digit key (length prefix) == d))
unfolding key_has_prefix
key_has_prefix-snoc key prefix d =
    agrees-snoc key 0 prefix d
    ∙ ap (λ n. agrees key 0 prefix && (octal_digit key n == d)) (zero_add (length prefix))
  where
    zero_add : (n : ℕ) → 0 + n ≡ n
    zero_add n = omega arith

any_large-snoc :
    (prefix : List ℕ) (d : ℕ) → any_large (prefix ++ (d ∷ [])) ≡ (any_large prefix || leb 8 d)
unfolding any_large
any_large-snoc [] d = ||-false (leb 8 d)
any_large-snoc (x ∷ prefix) d =
    ap (λ b. leb 8 x || b) (any_large-snoc prefix d)
    ∙ ||-assoc (leb 8 x) (any_large prefix) (leb 8 d)

ends_whole-snoc :
    (prefix : List ℕ) (d : ℕ) → ends_whole (prefix ++ (d ∷ [])) ≡ ((d == 0) || (d == 4))
unfolding ends_whole
ends_whole-snoc [] d = refl
ends_whole-snoc (x ∷ []) d = refl
ends_whole-snoc (x ∷ y ∷ prefix) d = ends_whole-snoc (y ∷ prefix) d

-- The paths from the root to the bits of a key: at most 86 octal digits, of which the last holds one
-- bit and two zeros.
pub record IsPath (prefix : List ℕ) : Type 0 where
  pub at_most : length prefix ≤ 86
  pub digits : any_large prefix ≡ false
  pub whole : (length prefix ≡ 86) → ends_whole prefix ≡ true

pub IsPath-validate_prefix : (prefix : List ℕ) → IsPath prefix → validate_prefix prefix ≡ ok tt
unfolding validate_prefix
IsPath-validate_prefix prefix p = rw (first, second) refl
  where
    first : (ltb 86 (length prefix) || any_large prefix) ≡ false
    first = rw p.digits (short (length prefix) p.at_most)
      where
        short : (n : ℕ) → n ≤ 86 → (ltb 86 n || false) ≡ false
        short n h = ground arith

    second : ((length prefix == 86) && not (ends_whole prefix)) ≡ false
    second = last (length prefix) (ends_whole prefix) p.whole
      where
        last : (n : ℕ) (b : Bool) → (n ≡ 86 → b ≡ true) → ((n == 86) && not b) ≡ false
        last n true h = ground arith
        last n false h = ground arith

pub validate_prefix-IsPath :
    (prefix : List ℕ) (u : Unit {0}) → validate_prefix prefix ≡ ok u → IsPath prefix
unfolding validate_prefix
validate_prefix-IsPath prefix u h =
    let (first, second) =
      passes (ltb 86 (length prefix) || any_large prefix)
        ((length prefix == 86) && not (ends_whole prefix)) h in
    let (short, digits) = both (ltb 86 (length prefix)) (any_large prefix) first in
    record {
      at_most = at_most (length prefix) short;
      digits = digits;
      whole = whole (length prefix) (ends_whole prefix) second;
    }
  where
    passes :
        (a b : Bool)
        → (refuse a invalid_prefix >>= λ _. refuse b invalid_prefix) ≡ ok u
        → (a ≡ false) × (b ≡ false)
    passes true b r = absurd cc
    passes false true r = absurd cc
    passes false false r = (refl, refl)

    both : (a b : Bool) → (a || b) ≡ false → (a ≡ false) × (b ≡ false)
    both true b r = absurd cc
    both false b r = (refl, r)

    at_most : (n : ℕ) → ltb 86 n ≡ false → n ≤ 86
    at_most n h = ground arith

    whole : (n : ℕ) (b : Bool) → ((n == 86) && not b) ≡ false → n ≡ 86 → b ≡ true
    whole n true h e = refl
    whole n false h e = ground arith

-- One digit more.
pub IsPath-snoc :
    (prefix : List ℕ) (d : ℕ)
    → IsPath prefix
    → length prefix < 86
    → d < 8
    → (length prefix ≡ 85 → ((d == 0) || (d == 4)) ≡ true)
    → IsPath (prefix ++ (d ∷ []))
IsPath-snoc prefix d p h g last = record {
  at_most = omega (arith, length-append prefix (d ∷ []));
  digits = any_large-snoc prefix d ∙ rw p.digits (small d g);
  whole = λ e. ends_whole-snoc prefix d ∙ last (omega (arith, length-append prefix (d ∷ [])));
}
  where
    small : (d : ℕ) → d < 8 → (false || leb 8 d) ≡ false
    small d g = ground arith
