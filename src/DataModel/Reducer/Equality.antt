-- ===== src/DataModel/Reducer/Equality.antt =====
-- The tests of equality decide equality.
use fractonica.Common.{◌≡◌, sym, ap, ◌∙◌, true}
use fractonica.Common.Arrays.{equal-eqb_bytes, eqb_bytes-equal}
use fractonica.Common.Result.{ok}
use fractonica.DataModel.{EntitySchema, Outcome, event}
use fractonica.DataModel.Codes.{as_str, parse}
use fractonica.DataModel.Codes.RoundTrip.{parse-as_str}
use fractonica.DataModel.Reducer.{eqb_schema}

pub equal-eqb_schema : (a b : EntitySchema) → a ≡ b → eqb_schema a b ≡ true
unfolding as_str
equal-eqb_schema a b h = equal-eqb_bytes (as_str a) (as_str b) (ap as_str h)

ok_or_event : Outcome EntitySchema → EntitySchema
ok_or_event (ok a) = a
ok_or_event _ = event

pub eqb_schema-equal : (a b : EntitySchema) → eqb_schema a b ≡ true → a ≡ b
unfolding as_str ok_or_event
eqb_schema-equal a b h =
    ap ok_or_event
      (sym (parse-as_str a) ∙ ap parse (eqb_bytes-equal (as_str a) (as_str b) h) ∙ parse-as_str b)
