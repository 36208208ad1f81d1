-- ===== src/Temporal/Series/Phases.antt =====
-- A bracket is an interval whose phase is defined at the instant that it was found for.
use fractonica.Common.{ℕ, zero, suc, ◌*◌, ◌≡◌, List, [], ◌∷◌, some, get_elem?, arith}
use fractonica.Common.Int.{ℤ, ◌<ℤ◌}
use fractonica.Common.Result.{ok}
use fractonica.Temporal.Phase.{PhaseRatio, IsPhase}
use fractonica.Temporal.Interval.{EclipsePoint, Interval, Timestamp, phase_at}
use fractonica.Temporal.Interval.Exact.{InRange, IsConsistent, elapsed, total, inside-IsPhase}
use fractonica.Temporal.Series.{series_bracket}
use fractonica.Temporal.Series.Windows.{IsSeries}
use fractonica.Temporal.Series.Search.{Brackets, series_bracket-Returns}

neighbours :
    (saros : ℕ) (xs : List EclipsePoint) (k : ℕ) (x y : EclipsePoint)
    → IsSeries saros xs
    → get_elem? xs k ≡ some x
    → get_elem? xs (suc k) ≡ some y
    → (x.saros ≡ saros) × (y.saros ≡ saros) × (x.epoch_seconds <ℤ y.epoch_seconds)
neighbours saros [] k x y s p q = cc
neighbours saros (a ∷ []) k x y s p q = cc
neighbours saros (a ∷ b ∷ rest) zero x y s p q = ground arith
neighbours saros (a ∷ b ∷ rest) (suc k) x y s p q = neighbours saros (b ∷ rest) k x y s.3 p q

bracket-IsConsistent :
    (eclipses : List EclipsePoint) (at : ℤ) (i : Interval)
    → Brackets eclipses at (ok i)
    → IsConsistent i
bracket-IsConsistent eclipses at i (series, two, (k, (p, n, lo, hi))) =
    neighbours i.saros eclipses k i.previous i.next series p n

-- When series_bracket finds an interval for a second, phase_at gives its exact phase at every
-- nanosecond of that second.
pub phase_at-series_bracket :
    (eclipses : List EclipsePoint) (at : Timestamp) (i : Interval)
    → series_bracket eclipses at.epoch_seconds ≡ some (ok i)
    → InRange i at
    → (p : PhaseRatio) × (phase_at i at ≡ ok p)
      × IsPhase p
      × (p.numerator * total i ≡ elapsed i at * p.denominator)
phase_at-series_bracket eclipses at i e v =
    let b : Brackets eclipses at.epoch_seconds (ok i) =
      rw e at (series_bracket-Returns eclipses at.epoch_seconds) in
    inside-IsPhase i at v (bracket-IsConsistent eclipses at.epoch_seconds i b)
      ((b.2).1.2, (b.2).1.3)
