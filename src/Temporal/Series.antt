-- ===== src/Temporal/Series.antt =====
-- `series_bracket`: the search for the interval of a series that contains an instant. Slices are
-- lists, and `none` is the panic of an index out of bounds; it is also what a search without fuel
-- gives.
pub mod Windows
pub mod Loop
pub mod Search
pub mod Phases
use fractonica.Common.{
  ℕ, zero, suc, ◌+◌, ◌-◌, ◌/◌, Bool, true, false, ◌||◌, not, ltb, leb, ◌==◌, Option, none, some,
  List, [], ◌∷◌, length, get_elem?, if◌then◌else◌,
}
use fractonica.Common.Int.{ℤ, ltb_ℤ, leb_ℤ}
use fractonica.Common.Result.{Result, ok, err, ◌>>=◌, ◌>>◌, refuse}
use fractonica.Temporal.{
  mixed_saros_series, unsorted_eclipses, too_few_eclipses, outside_series_coverage, Outcome,
}
use fractonica.Temporal.Interval.{EclipsePoint, Interval}

-- `for pair in eclipses.windows(2)`
unfoldable pub check_windows : ℕ → List EclipsePoint → Outcome (Unit {0})
check_windows saros [] = ok tt
check_windows saros (x ∷ []) = ok tt
check_windows saros (x ∷ y ∷ rest) = do
  refuse (not (x.saros == saros) || not (y.saros == saros)) mixed_saros_series
  refuse (leb_ℤ y.epoch_seconds x.epoch_seconds) unsorted_eclipses
  check_windows saros (y ∷ rest)

-- `while low < high`
unfoldable pub search_loop : ℕ → List EclipsePoint → ℤ → ℕ → ℕ → Option ℕ
search_loop zero eclipses at low high = none
search_loop (suc fuel) eclipses at low high = elim (ltb low high) [
  | false ↦ some low
  | true ↦ elim (get_elem? eclipses (low + (high - low) / 2)) [
    | none ↦ none
    | some middle ↦ elim (leb_ℤ middle.epoch_seconds at) [
      | true ↦ search_loop fuel eclipses at (low + (high - low) / 2 + 1) high
      | false ↦ search_loop fuel eclipses at low (low + (high - low) / 2)
    ]
  ]
]

-- The interval between two places, if both are in bounds.
abbrev pub between : ℕ → Option EclipsePoint → Option EclipsePoint → Option (Outcome Interval)
between saros (some previous) (some next) =
    some (ok (record { saros = saros; previous = previous; next = next }))
between saros (some previous) none = none
between saros none next = none

abbrev pub at_place : List EclipsePoint → ℕ → Option ℕ → Option (Outcome Interval)
at_place eclipses saros none = none
at_place eclipses saros (some low) =
    between saros (get_elem? eclipses (low - 1)) (get_elem? eclipses low)

-- What follows the checks of the pairs: the coverage test and the search.
unfoldable pub locate :
    List EclipsePoint → ℤ → EclipsePoint → Option EclipsePoint → Option (Outcome Interval)
locate eclipses at first none = none
locate eclipses at first (some last) =
    if ltb_ℤ at first.epoch_seconds || leb_ℤ last.epoch_seconds at
    then some (err outside_series_coverage)
    else at_place eclipses first.saros
        (search_loop (length eclipses) eclipses at 1 (length eclipses - 1))

abbrev pub after_check : Outcome (Unit {0}) → Option (Outcome Interval) → Option (Outcome Interval)
after_check (ok _) rest = rest
after_check (err e) rest = some (err e)

unfoldable pub series_bracket : List EclipsePoint → ℤ → Option (Outcome Interval)
unfolding locate
series_bracket [] at = some (err too_few_eclipses)
series_bracket (first ∷ rest) at =
    let eclipses = first ∷ rest in
    if ltb (length eclipses) 2
    then some (err too_few_eclipses)
    else after_check (check_windows first.saros eclipses)
        (locate eclipses at first (get_elem? eclipses (length eclipses - 1)))
