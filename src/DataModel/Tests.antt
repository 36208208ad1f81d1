-- ===== src/DataModel/Tests.antt =====
-- The body of a record, written and read back, with numbers of JSON that are whole or one half.
use fractonica.Common.{
  ℕ, ◌==◌, zero, suc, ◌≡◌, refl, List, [], ◌∷◌, Option, none, some, inl, arith, true, if◌then◌else◌,
}
use fractonica.Common.Int.{ℤ, pos, negsuc}
use fractonica.Common.Result.{Result, ok}
use fractonica.Trust.Errors.{TrustError}
use fractonica.Trust.Value.{CanonicalValue}
use fractonica.DataModel.{record_schema, capability_grant, codes}
use fractonica.DataModel.Codes.{parse, as_str}
use fractonica.DataModel.Codes.RoundTrip.{parse-as_str}
use fractonica.DataModel.Json.{Value, Members, Numbers, member}
use fractonica.DataModel.Json
use fractonica.DataModel.Documents.{RecordDocument, put_record, public_document, actor}
use fractonica.DataModel.Metadata.RoundTrip.{Kind, negative, natural, real}
use fractonica.DataModel.Encodings.RoundTrip.{IsRecord}
use fractonica.DataModel.Bodies.{encode_body, decode_body}
use fractonica.DataModel.Bodies.RoundTrip.{record_of, decode_body-encode_body}

data JsonNumber : Type 0 where
  whole : ℤ → JsonNumber
  half : JsonNumber

abbrev half_bits : ℕ
half_bits = 4602678819172646912

abbrev whole_part : JsonNumber → Option ℤ
whole_part (whole z) = some z
whole_part half = none

abbrev natural_part : JsonNumber → Option ℕ
natural_part (whole (pos n)) = some n
natural_part _ = none

abbrev numbers : Numbers
numbers = record {
  Number = JsonNumber;
  as_i64 = whole_part;
  as_u64 = natural_part;
  as_f64 = λ n. some half_bits;
  to_string = λ n. [];
  from_i64 = whole;
  from_u64 = λ n. whole (pos n);
  from_f64 = λ bits. if bits == half_bits then some half else none;
}

kinds : (n : JsonNumber) → Kind numbers n
kinds (whole (pos n)) = natural n tt refl refl
kinds (whole (negsuc n)) = negative n refl refl
kinds half = real half_bits refl refl refl refl refl

abbrev any_key : List ℕ → Result TrustError (Unit {0})
any_key key = ok tt

-- {"a": [0.5, -3, true], "b": {"c": 7}}
abbrev metadata : Members JsonNumber
metadata =
    member (codes "a")
      (Json.array (
        Json.cons (Json.number half)
          (Json.cons (Json.number (whole (negsuc 2))) (Json.cons (Json.boolean true) Json.nil))))
      (member (codes "b") (Json.object (member (codes "c") (Json.number (whole (pos 7))) Json.end))
        Json.end)

abbrev ones : ℕ → List ℕ
ones zero = []
ones (suc n) = 1 ∷ ones n

abbrev document : RecordDocument JsonNumber
document = record {
  start_at_unix_ms = pos 1700000000000;
  end_at_unix_ms = some (pos 1700000060000);
  emoji = none;
  text = some (codes "a walk");
  metadata = metadata;
  resources = [];
  references = record { relation = codes "with"; target = actor (ones 32) } ∷ [];
}

document-IsRecord : IsRecord document
document-IsRecord = record {
  start_in = omega arith;
  end_in = omega arith;
  metadata_sorted = ((inl (omega arith), tt), (tt, (tt, (tt, tt))), (tt, (tt, tt, tt), tt));
  resource_ids = tt;
  reference_ids = (refl, tt);
}

decode_body-encode_body_example :
    (v : CanonicalValue) × (encode_body numbers record_schema
        (put_record (public_document document))
      ≡ ok v)
    × (decode_body numbers any_key record_schema v ≡ ok (put_record (public_document document)))
decode_body-encode_body_example =
    decode_body-encode_body numbers kinds any_key record_schema
      (put_record (public_document document))
      (record_of (public_document document) document-IsRecord)

parse-as_str_example : parse (as_str capability_grant) ≡ ok capability_grant
parse-as_str_example = parse-as_str capability_grant
