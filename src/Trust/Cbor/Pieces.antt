-- ===== src/Trust/Cbor/Pieces.antt =====
-- The pieces of arrays, maps and simple values, read after one another.
use fractonica.Common.{
  append_assoc, ℕ, suc, ◌^◌, ◌<◌, ◌≡◌, refl, ap, ◌∙◌, bit_and, Bool, true, false, ltb, List, [],
  ◌∷◌, ◌++◌, length, length-append, Option, none, some, arith, if◌then◌else◌,
}
use fractonica.Common.Words.{shr}
use fractonica.Common.Result.{ok, ◌>>=◌, ◌>>◌, >>=-ok, refuse-ok}
use fractonica.Trust.Value.{
  CanonicalValue, Items, Entries, null, boolean, array, map, end, entry, items,
}
use fractonica.Trust.Cbor.{Platform, push, encode_head, validate_container, container_too_large}
use fractonica.Trust.Cbor.Encode.{KeyedValue, check_depth, entry_count}
use fractonica.Trust.Cbor.Decode.{
  Step, decode_argument, decode_items, decode_entries, decode_simple, decode_major, decode_value,
}
use fractonica.Trust.Cbor.Heads.{at}
use fractonica.Trust.Cbor.Heads.Read.{Reads, push-ok, encode_head-read}
use fractonica.Trust.Cbor.Parts.{IsWritten, from_lead, from_parts}
use fractonica.Trust.Cbor.Reading.{Reads-then, Reads-map, Reads-nil, key_bytes-at}
use fractonica.Trust.Cbor.Order.{FirstAfter, May, out_of_order-May}

pub few : (n : ℕ) → validate_container n ≡ ok tt → n < 2 ^ 64
unfolding validate_container
few n h = bound (refuse-ok (ltb 4096 n) (container_too_large n 4096) h)
  where
    bound : ltb 4096 n ≡ false → n < 2 ^ 64
    bound f = ground arith

pub items_step :
    (below : Step CanonicalValue) (count : ℕ) (s t : List ℕ) (v : CanonicalValue)
    (vs : List CanonicalValue)
    → Reads below s v
    → Reads (decode_items below count) t vs
    → Reads (decode_items below (suc count)) (s ++ t) (v ∷ vs)
unfolding decode_items
items_step below count s t v vs first rest =
    Reads-then below (λ value d. decode_items below count d >>= λ p. ok (value ∷ p.0, p.1)) s t v
      (v ∷ vs) first (Reads-map (decode_items below count) (λ us. v ∷ us) t vs rest)

pub items_none : (below : Step CanonicalValue) → Reads (decode_items below 0) [] []
unfolding decode_items
items_none below = Reads-nil []

pub entries_none :
    (below : Step CanonicalValue) (prev : Option (List ℕ))
    → Reads (decode_entries below 0 prev) [] end
unfolding decode_entries
entries_none below prev = Reads-nil end

pub entry_step :
    (below : Step CanonicalValue) (count : ℕ) (prev : Option (List ℕ)) (s t u : List ℕ)
    (k v : CanonicalValue) (rest : Entries)
    → Reads below s k
    → May prev s
    → Reads below t v
    → Reads (decode_entries below count (some s)) u rest
    → Reads (decode_entries below (suc count) prev) (s ++ (t ++ u)) (entry k v rest)
unfolding decode_entries
entry_step below count prev s t u k v rest key may value others before after h =
    rw (append_assoc s (t ++ u) after) (
      rw (key before ((t ++ u) ++ after) (omega (arith, h, length-append s (t ++ u)))) (
        rw (key_bytes-at before s ((t ++ u) ++ after)) (
          rw (out_of_order-May prev s may) (
            Reads-then below
              (λ x d. decode_entries below count (some s) d >>= λ p. ok (entry k x p.0, p.1)) t u v
              (entry k v rest) value
              (Reads-map (decode_entries below count (some s)) (λ r. entry k v r) u rest others)
              (before ++ s) after
              (omega (arith, h, length-append s (t ++ u), length-append before s))
            ∙ ap (λ i. ok (entry k v rest, at i after)) (append_assoc before s (t ++ u))))))

abbrev pub FirstMay : Option (List ℕ) → List KeyedValue → Type 0
FirstMay none list = Unit {0}
FirstMay (some key) list = FirstAfter key list

pub first_may :
    (prev : Option (List ℕ)) (x : KeyedValue) (xs : List KeyedValue)
    → FirstMay prev (x ∷ xs)
    → May prev x.key
first_may none x xs h = tt
first_may (some key) x xs h = h

module _ (platform : Platform) where
  pub array_read :
      (vs : List CanonicalValue) (values : Items) (below : Step CanonicalValue) (info : ℕ)
      (tail enc : List ℕ)
      → items vs ≡ values
      → validate_container (length vs) ≡ ok tt
      → Reads (decode_argument info) tail (length vs)
      → Reads (decode_items below (length vs)) enc vs
      → Reads (decode_major platform below 4 info) (tail ++ enc) (array values)
  unfolding decode_major
  array_read vs values below info tail enc e v head read =
      Reads-then (decode_argument info)
        (λ count d.
          validate_container count
          >> (decode_items below count d >>= λ p. ok (array (items p.0), p.1)))
        tail enc (length vs) (array values) head
        (λ before after h. rw v (rw (read before after h) (rw e refl)))

  pub map_read :
      (es : Entries) (below : Step CanonicalValue) (info : ℕ) (tail enc : List ℕ)
      → validate_container (entry_count es) ≡ ok tt
      → Reads (decode_argument info) tail (entry_count es)
      → Reads (decode_entries below (entry_count es) none) enc es
      → Reads (decode_major platform below 5 info) (tail ++ enc) (map es)
  unfolding decode_major
  map_read es below info tail enc v head read =
      Reads-then (decode_argument info)
        (λ count d.
          validate_container count
          >> (decode_entries below count none d >>= λ p. ok (map p.0, p.1)))
        tail enc (entry_count es) (map es) head
        (λ before after h. rw v (rw (read before after h) refl))

  pub simple_read :
      (value : CanonicalValue) (below : Step CanonicalValue) (info : ℕ) (tail : List ℕ)
      → Reads (decode_simple platform info) tail value
      → Reads (decode_major platform below 7 info) tail value
  unfolding decode_major
  simple_read value below info tail read = read

  -- A value of one byte.
  pub one_byte :
      (depth lead : ℕ) (output out : List ℕ) (value : CanonicalValue)
      → check_depth depth ≡ ok tt
      → shr lead 5 ≡ 7
      → push output (lead ∷ []) ≡ ok out
      → Reads (decode_simple platform (bit_and lead 31)) [] value
      → IsWritten depth output out (decode_value platform) value
  one_byte depth lead output out value c m h read =
      let (e, s) = push-ok output (lead ∷ []) out h in
      from_lead platform depth 7 lead [] output out value c e
        (omega (arith, s, ap length e, length-append output (lead ∷ []))) m
        (λ levels q. simple_read value (decode_value platform levels) (bit_and lead 31) [] read)

  -- The bytes of a byte string or a text.
  pub content :
      (depth major : ℕ) (output out value : List ℕ) (v : CanonicalValue)
      → check_depth depth ≡ ok tt
      → major < 8
      → (encode_head major (length value) output >>= λ o. push o value) ≡ ok out
      → ((below : Step CanonicalValue) (info : ℕ) (tail : List ℕ)
          → Reads (decode_argument info) tail (length value)
          → Reads (decode_major platform below major info) (tail ++ value) v)
      → IsWritten depth output out (decode_value platform) v
  content depth major output out value v c m h read =
      let (o, p, q) = >>=-ok (encode_head major (length value) output) (λ o. push o value) h in
      let (e, s) = push-ok o value out q in
      from_parts platform depth major (length value) output o out value v c
        (encode_head-read major (length value) output o m (omega (arith, s)) p) e
        (omega (arith, s, ap length e, length-append o value))
        (λ levels info tail _ head. read (decode_value platform levels) info tail head)

  pub null_read : Reads (decode_simple platform 22) [] null
  unfolding decode_simple
  null_read = Reads-nil null

  pub boolean_read :
      (b : Bool) → Reads (decode_simple platform (if b then 21 else 20)) [] (boolean b)
  unfolding decode_simple
  boolean_read true = Reads-nil (boolean true)
  boolean_read false = Reads-nil (boolean false)
