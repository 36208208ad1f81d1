-- ===== src/Temporal/Interval/Exact.antt =====
-- `phase_at` on every input.
use fractonica.Common.{ℕ, ◌+◌, ◌*◌, ◌^◌, ◌<◌, ◌≡◌, ◌≢◌, ◌⊎◌, inl, inr, ap₂, ◌∙◌, arith, ℕ_discrete}
use fractonica.Common.Int.{◌-ℤ◌, ◌≤ℤ◌, ◌<ℤ◌, IsI64, as_u128, distance, as_u128-sub, dec_lt_ℤ}
use fractonica.Common.Result.{ok, err}
use fractonica.Common.Words.{add_u, mul_u}
use fractonica.Temporal.{
  nanoseconds_per_second, mixed_saros_series, invalid_interval, instant_outside_interval,
  TemporalError, Outcome,
}
use fractonica.Temporal.Phase.{PhaseRatio, IsPhase, from_valid_parts}
use fractonica.Temporal.Phase
use fractonica.Temporal.Phase.Lowest.{new-cases, from_valid_parts-value}
use fractonica.Temporal.Interval.{Timestamp, Interval, phase_at}

-- What the types of the fields give: `i64` seconds, and a checked nanosecond.
pub record InRange (i : Interval) (at : Timestamp) : Type 0 where
  pub previous_in : IsI64 i.previous.epoch_seconds
  pub next_in : IsI64 i.next.epoch_seconds
  pub at_in : IsI64 at.epoch_seconds
  pub nanosecond_in : at.nanosecond < nanoseconds_per_second

abbrev pub elapsed : Interval → Timestamp → ℕ
elapsed i at =
    distance at.epoch_seconds i.previous.epoch_seconds * nanoseconds_per_second + at.nanosecond

abbrev pub total : Interval → ℕ
total i = distance i.next.epoch_seconds i.previous.epoch_seconds * nanoseconds_per_second

abbrev pub IsConsistent : Interval → Type 0
IsConsistent i =
    (i.previous.saros ≡ i.saros)
    × (i.next.saros ≡ i.saros)
    × (i.previous.epoch_seconds <ℤ i.next.epoch_seconds)

abbrev pub Contains : Interval → Timestamp → Type 0
Contains i at =
    (i.previous.epoch_seconds ≤ℤ at.epoch_seconds) × (at.epoch_seconds <ℤ i.next.epoch_seconds)

-- The right answer of `phase_at` for an interval and an instant.
abbrev pub Answers : Interval → Timestamp → Outcome PhaseRatio → Type 0
Answers i at (ok p) =
    IsConsistent i
    × Contains i at
    × IsPhase p
    × (p.numerator * total i ≡ elapsed i at * p.denominator)
Answers i at (err mixed_saros_series) = (i.previous.saros ≢ i.saros) ⊎ (i.next.saros ≢ i.saros)
Answers i at (err invalid_interval) =
    (i.previous.saros ≡ i.saros)
    × (i.next.saros ≡ i.saros)
    × (i.next.epoch_seconds ≤ℤ i.previous.epoch_seconds)
Answers i at (err instant_outside_interval) =
    IsConsistent i
    × ((at.epoch_seconds <ℤ i.previous.epoch_seconds) ⊎ (i.next.epoch_seconds ≤ℤ at.epoch_seconds))
Answers i at (err _) = ⊥

module _ (i : Interval) (at : Timestamp) (v : InRange i at) where
  elapsed_exact :
      i.previous.epoch_seconds ≤ℤ at.epoch_seconds
      → add_u 128
          (mul_u 128
            (as_u128 (at.epoch_seconds -ℤ i.previous.epoch_seconds))
            nanoseconds_per_second)
          at.nanosecond
        ≡ elapsed i at
  elapsed_exact h =
      rw (as_u128-sub at.epoch_seconds i.previous.epoch_seconds v.at_in v.previous_in h)
        (omega (arith, v.at_in, v.previous_in, v.nanosecond_in))

  total_exact :
      i.previous.epoch_seconds <ℤ i.next.epoch_seconds
      → mul_u 128
          (as_u128 (i.next.epoch_seconds -ℤ i.previous.epoch_seconds))
          nanoseconds_per_second
        ≡ total i
  total_exact h =
      rw
        (as_u128-sub i.next.epoch_seconds i.previous.epoch_seconds v.next_in v.previous_in
          (omega arith))
        (omega (arith, v.next_in, v.previous_in))

  elapsed-lt-total : IsConsistent i → Contains i at → elapsed i at < total i
  elapsed-lt-total c h = omega (arith, v.nanosecond_in)

  total-lt : total i < 2 ^ 128
  total-lt = omega (arith, v.next_in, v.previous_in)

  phase_at_inside :
      IsConsistent i → Contains i at → phase_at i at ≡ Phase.new (elapsed i at) (total i)
  unfolding phase_at
  phase_at_inside c h =
      let e = elapsed_exact h.0 in
      let t = total_exact c.2 in ground (arith, e, t, ap₂ Phase.new e t)

  -- An instant inside a consistent interval has a phase, and it is exact.
  pub inside-IsPhase :
      IsConsistent i
      → Contains i at
      → (p : PhaseRatio) × (phase_at i at ≡ ok p)
        × IsPhase p
        × (p.numerator * total i ≡ elapsed i at * p.denominator)
  inside-IsPhase c h =
      let small = elapsed-lt-total c h in
      elim (new-cases (elapsed i at) (total i) total-lt) [
        | inl (big, _) ↦ absurd (omega arith)
        | inr (_, valid, e) ↦ (
          from_valid_parts (elapsed i at) (total i),
          phase_at_inside c h ∙ e,
          valid,
          from_valid_parts-value (elapsed i at) (total i),
        )
      ]

  inside-Answers : IsConsistent i → Contains i at → Answers i at (phase_at i at)
  inside-Answers c h = let (p, e, valid, same) = inside-IsPhase c h in rw e (c, h, valid, same)

  refused :
      (e : TemporalError)
      → phase_at i at ≡ err e
      → Answers i at (err e)
      → Answers i at (phase_at i at)
  refused e p a = rw p a

  -- `phase_at` gives the exact phase of an instant inside a consistent interval, and names the reason
  -- otherwise.
  pub phase_at-Answers : Answers i at (phase_at i at)
  unfolding phase_at
  phase_at-Answers = elim (ℕ_discrete i.previous.saros i.saros) [
    | no p ↦ refused mixed_saros_series (ground arith) (inl p)
    | yes p ↦ elim (ℕ_discrete i.next.saros i.saros) [
      | no q ↦ refused mixed_saros_series (ground arith) (inr q)
      | yes q ↦ elim (dec_lt_ℤ i.previous.epoch_seconds i.next.epoch_seconds) [
        | no r ↦ refused invalid_interval (ground arith) (p, q, omega arith)
        | yes r ↦ elim (dec_lt_ℤ at.epoch_seconds i.previous.epoch_seconds) [
          | yes early ↦ refused instant_outside_interval (ground arith) ((p, q, r), inl early)
          | no h ↦ elim (dec_lt_ℤ at.epoch_seconds i.next.epoch_seconds) [
            | yes k ↦ inside-Answers (p, q, r) (omega arith, k)
            | no late ↦
                refused instant_outside_interval (ground arith) ((p, q, r), inr (omega arith))
          ]
        ]
      ]
    ]
  ]
