-- ===== src/Temporal/Interval.antt =====
-- `Timestamp`, `EclipsePoint` and `Interval`: the exact phase of an instant. An `i64` is an integer in
-- its range; the differences are taken in an `i128`, where they cannot overflow.
pub mod Exact
use fractonica.Common.{ℕ, ◌+◌, Bool, ◌&&◌, ◌||◌, not, ltb, leb, ◌==◌, if◌then◌else◌}
use fractonica.Common.Int.{ℤ, ◌-ℤ◌, ltb_ℤ, leb_ℤ, eqb_ℤ, as_u128}
use fractonica.Common.Result.{ok, err, ◌>>=◌, ◌>>◌, refuse}
use fractonica.Common.Words.{add_u, mul_u}
use fractonica.Temporal.{
  nanoseconds_per_second, invalid_nanosecond, mixed_saros_series, invalid_interval,
  instant_outside_interval, Outcome,
}
use fractonica.Temporal.Phase.{PhaseRatio}
use fractonica.Temporal.Phase

pub record Timestamp : Type 0 where
  pub epoch_seconds : ℤ
  pub nanosecond : ℕ

unfoldable pub new : ℤ → ℕ → Outcome Timestamp
new epoch_seconds nanosecond =
    if leb nanoseconds_per_second nanosecond
    then err (invalid_nanosecond nanosecond)
    else ok (record { epoch_seconds = epoch_seconds; nanosecond = nanosecond })

abbrev pub from_epoch_seconds : ℤ → Timestamp
from_epoch_seconds epoch_seconds = record { epoch_seconds = epoch_seconds; nanosecond = 0 }

-- The derived order: by the seconds, then by the nanosecond.
abbrev pub before : Timestamp → Timestamp → Bool
before s t =
    ltb_ℤ s.epoch_seconds t.epoch_seconds
    || (eqb_ℤ s.epoch_seconds t.epoch_seconds && ltb s.nanosecond t.nanosecond)

pub record EclipsePoint : Type 0 where
  pub index : ℕ
  pub epoch_seconds : ℤ
  pub saros : ℕ
  pub sequence : ℕ
  pub type_code : ℕ

pub record Interval : Type 0 where
  pub saros : ℕ
  pub previous : EclipsePoint
  pub next : EclipsePoint

unfoldable pub validate : Interval → Outcome (Unit {0})
validate i = do
  refuse (not (i.previous.saros == i.saros) || not (i.next.saros == i.saros)) mixed_saros_series
  refuse (leb_ℤ i.next.epoch_seconds i.previous.epoch_seconds) invalid_interval

unfoldable pub phase_at : Interval → Timestamp → Outcome PhaseRatio
unfolding validate
phase_at i at = do
  validate i
  let previous = from_epoch_seconds i.previous.epoch_seconds
  let next = from_epoch_seconds i.next.epoch_seconds
  refuse (before at previous || not (before at next)) instant_outside_interval
  let elapsed_seconds = at.epoch_seconds -ℤ previous.epoch_seconds
  let total_seconds = next.epoch_seconds -ℤ previous.epoch_seconds
  let elapsed_nanoseconds =
      add_u 128 (mul_u 128 (as_u128 elapsed_seconds) nanoseconds_per_second) at.nanosecond
  let total_nanoseconds = mul_u 128 (as_u128 total_seconds) nanoseconds_per_second
  Phase.new elapsed_nanoseconds total_nanoseconds
