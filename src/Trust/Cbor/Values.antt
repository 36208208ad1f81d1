-- ===== src/Trust/Cbor/Values.antt =====
-- A value that is written is read back, in an array and in a map too.
use fractonica.Common.{
  append-nil, append_assoc, ℕ, suc, ◌≤◌, ◌≡◌, refl, sym, ap, subst, ◌∙◌, bit_and, true, false, List,
  [], ◌∷◌, ◌++◌, length, Option, none, some, arith,
}
use fractonica.Common.Int.{pos, negsuc}
use fractonica.Common.Result.{ok, ◌>>=◌, refuse, >>-ok, >>=-ok, ok-injective}
use fractonica.Trust.Value.{
  CanonicalValue, Items, Entries, null, boolean, integer, unsigned, float, bytes, text, array, map,
  nil, cons, end, entry, to_list, items-to_list,
}
use fractonica.Trust.Cbor.{Platform, duplicate_map_key, push, encode_head, validate_container}
use fractonica.Trust.Cbor.Encode.{
  KeyedValue, check_depth, sort_entries, any_repeated, entry_count, write_entries, encode_value,
  encode_items, encode_keys,
}
use fractonica.Trust.Cbor.Decode.{decode_items, decode_entries, decode_value}
use fractonica.Trust.Cbor.Heads.Read.{Reads, push-ok, encode_head-read}
use fractonica.Trust.Cbor.Parts.{
  IsWritten, from_lead, from_head, from_parts, unsigned_read, negative_read, bytes_read, text_read,
}
use fractonica.Trust.Cbor.Floats.{encode_float-read}
use fractonica.Trust.Cbor.Order.{
  IsIncreasing, sort_entries-IsIncreasing, AreKeyed, encode_keys-AreKeyed, entry_count-AreKeyed,
}
use fractonica.Trust.Cbor.Normal.{
  IsPlatform, IsNormal, AreNormal, AreNormalEntries, AreKeyed-IsIncreasing,
}
use fractonica.Trust.Cbor.Pieces.{
  few, array_read, map_read, one_byte, simple_read, content, null_read, boolean_read, items_step,
  items_none, entries_none, entry_step, FirstMay, first_may,
}

module _ (platform : Platform) (law : IsPlatform platform) where
  mutual
    unfolding encode_value

    pub value_read :
        (value : CanonicalValue) (depth : ℕ) (output out : List ℕ)
        → IsNormal platform depth value
        → encode_value platform value depth output ≡ ok out
        → IsWritten depth output out (decode_value platform) value
    value_read null depth output out n h =
        let (c, g) = >>-ok (check_depth depth) _ h in
        one_byte platform depth 246 output out null c refl g (null_read platform)
    value_read (boolean false) depth output out n h =
        let (c, g) = >>-ok (check_depth depth) _ h in
        one_byte platform depth 244 output out (boolean false) c refl g
          (boolean_read platform false)
    value_read (boolean true) depth output out n h =
        let (c, g) = >>-ok (check_depth depth) _ h in
        one_byte platform depth 245 output out (boolean true) c refl g (boolean_read platform true)
    value_read (integer (pos k)) depth output out n h = absurd n
    value_read (integer (negsuc k)) depth output out n h =
        let (c, g) = >>-ok (check_depth depth) _ h in
        from_head platform depth 1 k output out (integer (negsuc k)) c
          (encode_head-read 1 k output out (omega arith) (omega (arith, n)) g)
          (negative_read platform k n)
    value_read (unsigned k) depth output out n h =
        let (c, g) = >>-ok (check_depth depth) _ h in
        from_head platform depth 0 k output out (unsigned k) c
          (encode_head-read 0 k output out (omega arith) n g) (unsigned_read platform k)
    value_read (float bits) depth output out n h =
        let (c, g) = >>-ok (check_depth depth) _ h in
        let (lead, tail, e, s, m, read) = encode_float-read platform bits output out law n g in
        from_lead platform depth 7 lead tail output out (float bits) c e s m (λ levels q.
          simple_read platform (float bits) (decode_value platform levels) (bit_and lead 31) tail
            read)
    value_read (bytes value) depth output out n h =
        let (c, g) = >>-ok (check_depth depth) _ h in
        content platform depth 2 output out value (bytes value) c (omega arith) g
          (bytes_read platform value)
    value_read (text value) depth output out n h =
        let (c, g) = >>-ok (check_depth depth) _ h in
        content platform depth 3 output out value (text value) c (omega arith) g
          (text_read platform value n)
    value_read (array values) depth output out n h =
        let (c, g) = >>-ok (check_depth depth) _ h in
        let (v, g1) = >>-ok (validate_container (length (to_list values))) _ g in
        let (o, p, q) =
          >>=-ok (encode_head 4 (length (to_list values)) output)
            (λ o. encode_items platform values (suc depth) o) g1 in
        let head =
          encode_head-read 4 (length (to_list values)) output o (omega arith)
            (few (length (to_list values)) v) p in
        let (enc, e, s, read) = items_read values (suc depth) o out n head.3 q in
        from_parts platform depth 4 (length (to_list values)) output o out enc (array values) c head
          e s
          (λ levels info tail r used.
            array_read platform (to_list values) values (decode_value platform levels) info tail enc
              (items-to_list values) v used (read levels r))
    value_read (map es) depth output out n h =
        let (c, g) = >>-ok (check_depth depth) _ h in
        let (v, g1) = >>-ok (validate_container (entry_count es)) _ g in
        let (list, k, g2) = >>=-ok (encode_keys platform es (suc depth) 0) _ g1 in
        let (_, g3) = >>-ok (refuse (any_repeated (sort_entries list)) duplicate_map_key) _ g2 in
        let (o, p, q) =
          >>=-ok (encode_head 5 (length (sort_entries list)) output)
            (λ o. write_entries (sort_entries list) o) g3 in
        let keyed = encode_keys-AreKeyed platform es (suc depth) 0 list k in
        let ordered = AreKeyed-IsIncreasing platform es (suc depth) list n keyed in
        let same = sort_entries-IsIncreasing list ordered in
        let head =
          encode_head-read 5 (entry_count es) output o (omega arith) (few (entry_count es) v) (
            subst (λ m. encode_head 5 m output ≡ ok o)
              (ap length same ∙ entry_count-AreKeyed platform es (suc depth) list keyed) p) in
        let (enc, e, s, read) =
          entries_read es (suc depth) list o out none n keyed ordered tt head.3
            (subst (λ l. write_entries l o ≡ ok out) same q) in
        from_parts platform depth 5 (entry_count es) output o out enc (map es) c head e s
          (λ levels info tail r used.
            map_read platform es (decode_value platform levels) info tail enc v used
              (read levels r))

    pub items_read :
        (values : Items) (depth : ℕ) (output out : List ℕ)
        → AreNormal platform depth values
        → length output ≤ 2097152
        → encode_items platform values depth output ≡ ok out
        → IsWritten depth output out
            (λ levels. decode_items (decode_value platform levels) (length (to_list values)))
            (to_list values)
    items_read nil depth output out n s h = (
      [],
      sym (ok-injective h) ∙ sym (append-nil output),
      subst (λ o. length o ≤ 2097152) (ok-injective h) s,
      λ levels q. items_none (decode_value platform levels),
    )
    items_read (cons v rest) depth output out (n, ns) s h =
        let (o, p, q) =
          >>=-ok (encode_value platform v depth output) (λ o. encode_items platform rest depth o)
            h in
        let (enc, e, t, read) = value_read v depth output o n p in
        let (encs, es, ts, reads) = items_read rest depth o out ns t q in
        (
          enc ++ encs,
          es ∙ ap (λ x. x ++ encs) e ∙ append_assoc output enc encs,
          ts,
          λ levels r.
              items_step (decode_value platform levels) (length (to_list rest)) enc encs v
                (to_list rest) (read levels r) (reads levels r),
        )

    pub entries_read :
        (es : Entries) (depth : ℕ) (list : List KeyedValue) (output out : List ℕ)
        (prev : Option (List ℕ))
        → AreNormalEntries platform depth es
        → AreKeyed platform depth es list
        → IsIncreasing list
        → FirstMay prev list
        → length output ≤ 2097152
        → write_entries list output ≡ ok out
        → IsWritten depth output out
            (λ levels. decode_entries (decode_value platform levels) (entry_count es) prev)
            es
    entries_read end depth [] output out prev n k i m s h = (
      [],
      sym (ok-injective h) ∙ sym (append-nil output),
      subst (λ o. length o ≤ 2097152) (ok-injective h) s,
      λ levels q. entries_none (decode_value platform levels) prev,
    )
    entries_read end depth (x ∷ xs) output out prev n k i m s h = absurd k
    entries_read (entry key v rest) depth [] output out prev n k i m s h = absurd k
    entries_read (entry key v rest) depth (x ∷ xs) output out prev (n, n', _, ns) (ek, ew, ks)
          (i, is) m s h =
        let (o, p, q) = >>=-ok (push output x.key) (λ o. x.write o >>= λ o. write_entries xs o) h in
        let (o', p', q') = >>=-ok (x.write o) (λ o. write_entries xs o) q in
        let (e, _) = push-ok output x.key o p in
        let (kenc, ke, _, kread) = value_read key depth [] x.key n ek in
        let (enc, e', t, read) = value_read v depth o o' n' (ap (λ f. f o) (sym ew) ∙ p') in
        let (encs, es, ts, reads) =
          entries_read rest depth xs o' out (some x.key) ns ks is i t q' in
        (
          x.key ++ (enc ++ encs),
          es
              ∙ ap (λ y. y ++ encs) (e' ∙ ap (λ y. y ++ enc) e)
              ∙ append_assoc (output ++ x.key) enc encs
              ∙ append_assoc output x.key (enc ++ encs),
          ts,
          λ levels r.
              entry_step (decode_value platform levels) (entry_count rest) prev x.key enc encs key v
                rest
                (subst (λ y. Reads (decode_value platform levels) y key) (sym ke) (kread levels r))
                (first_may prev x xs m) (read levels r) (reads levels r),
        )
