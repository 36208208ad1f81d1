-- ===== src/Temporal/Series/Search.antt =====
-- The bracket that the search finds: for every slice and instant it ends, never reads out of bounds,
-- and answers with the adjacent pair that contains the instant, or with the reason why there is none.
use fractonica.Common.{
  ℕ, suc, ◌-◌, ◌≤◌, ◌<◌, ◌≡◌, ◌⊎◌, inl, inr, refl, ap, ◌∙◌, false, ltb, Option, none, some, List,
  [], ◌∷◌, length, get_elem?, get_elem?-some, arith,
}
use fractonica.Common.Int.{ℤ, ◌≤ℤ◌, ◌<ℤ◌, dec_lt_ℤ}
use fractonica.Common.Result.{ok, err}
use fractonica.Temporal.{
  mixed_saros_series, unsorted_eclipses, too_few_eclipses, outside_series_coverage, Outcome,
}
use fractonica.Temporal.Interval.{EclipsePoint, Interval}
use fractonica.Temporal.Series.{after_check, check_windows, locate, series_bracket}
use fractonica.Temporal.Series.Windows.{
  IsSeries, HasForeign, HasDescent, Checked, check_windows-Checked,
}
use fractonica.Temporal.Series.Loop.{Splits, Around, search_loop-Splits}

-- The interval at place k: two neighbours of the slice around the instant.
abbrev pub IsBracket : List EclipsePoint → ℤ → ℕ → Interval → Type 0
IsBracket eclipses at k i =
    (get_elem? eclipses k ≡ some i.previous)
    × (get_elem? eclipses (suc k) ≡ some i.next)
    × (i.previous.epoch_seconds ≤ℤ at)
    × (at <ℤ i.next.epoch_seconds)

-- The right answer of `series_bracket`.
abbrev pub Brackets : List EclipsePoint → ℤ → Outcome Interval → Type 0
Brackets eclipses at (ok i) =
    IsSeries i.saros eclipses × (2 ≤ length eclipses) × ((k : ℕ) × IsBracket eclipses at k i)
Brackets eclipses at (err too_few_eclipses) = length eclipses < 2
Brackets eclipses at (err mixed_saros_series) =
    (first : EclipsePoint) × (get_elem? eclipses 0 ≡ some first) × HasForeign first.saros eclipses
Brackets eclipses at (err unsorted_eclipses) = HasDescent eclipses
Brackets eclipses at (err outside_series_coverage) =
    (first : EclipsePoint) × (last : EclipsePoint) × (get_elem? eclipses 0 ≡ some first)
    × (get_elem? eclipses (length eclipses - 1) ≡ some last)
    × IsSeries first.saros eclipses
    × ((at <ℤ first.epoch_seconds) ⊎ (last.epoch_seconds ≤ℤ at))
Brackets eclipses at (err _) = ⊥

-- A call that returns, and with the right answer.
abbrev pub Returns : List EclipsePoint → ℤ → Option (Outcome Interval) → Type 0
Returns eclipses at none = ⊥
Returns eclipses at (some r) = Brackets eclipses at r

module _ (first : EclipsePoint) (rest : List EclipsePoint) (at : ℤ)
    (two : 2 ≤ length (first ∷ rest)) where
  abbrev eclipses : List EclipsePoint
  eclipses = first ∷ rest

  located :
      (last : EclipsePoint) (r : Option (Outcome Interval))
      → locate eclipses at first (some last) ≡ r
      → Returns eclipses at r
      → Returns eclipses at (locate eclipses at first (some last))
  located last r e h = rw e h

  start :
      (last : EclipsePoint)
      → get_elem? eclipses (length eclipses - 1) ≡ some last
      → first.epoch_seconds ≤ℤ at
      → at <ℤ last.epoch_seconds
      → Around eclipses at 1 (length eclipses - 1)
  start last last_is lo hi = record {
    previous = first;
    next = last;
    previous_is = refl;
    next_is = last_is;
    positive = omega arith;
    ordered = omega (arith, two);
    inside = omega (arith, two);
    reached = lo;
    not_reached = hi;
  }

  Splits-Brackets :
      (k : ℕ)
      → IsSeries first.saros eclipses
      → (s : Splits eclipses at k)
      → Brackets eclipses at
          (ok (record { saros = first.saros; previous = s.previous; next = s.next }))
  Splits-Brackets k series s = (
    series,
    two,
    (k - 1, (s.previous_is, ap (get_elem? eclipses) rejoin ∙ s.next_is, s.reached, s.not_reached)),
  )
    where
      rejoin : suc (k - 1) ≡ k
      rejoin = omega (arith, s.positive)

  locate-Returns :
      (last : EclipsePoint)
      → get_elem? eclipses (length eclipses - 1) ≡ some last
      → IsSeries first.saros eclipses
      → Returns eclipses at (locate eclipses at first (some last))
  unfolding locate
  locate-Returns last last_is series = elim (dec_lt_ℤ at first.epoch_seconds) [
    | yes early ↦
        located last (some (err outside_series_coverage)) (ground arith)
          (first, last, refl, last_is, series, inl early)
    | no lo ↦ elim (dec_lt_ℤ at last.epoch_seconds) [
      | no late ↦
          located last (some (err outside_series_coverage)) (ground arith)
            (first, last, refl, last_is, series, inr (omega arith))
      | yes hi ↦
          let (k, found, s) =
            search_loop-Splits eclipses at (length eclipses) 1 (length eclipses - 1)
              (start last last_is (omega arith) hi) (omega (arith, two)) in
          located last
            (some (ok (record { saros = first.saros; previous = s.previous; next = s.next })))
            (ground (arith, found, s.previous_is, s.next_is)) (Splits-Brackets k series s)
    ]
  ]

  windows-Returns :
      (r : Outcome (Unit {0})) (found : Option (Outcome Interval))
      → Checked first.saros eclipses r
      → (IsSeries first.saros eclipses → Returns eclipses at found)
      → Returns eclipses at (after_check r found)
  windows-Returns (ok _) found c h = h c
  windows-Returns (err mixed_saros_series) found c h = (first, refl, c)
  windows-Returns (err unsorted_eclipses) found c h = c
  windows-Returns (err _) found c h = absurd c

-- On every slice and second, series_bracket returns without reading out of bounds: an interval it
-- finds is a pair of neighbours around the second, in a slice of one series with increasing times,
-- and each error states what is wrong with the slice or the second.
pub series_bracket-Returns :
    (eclipses : List EclipsePoint) (at : ℤ) → Returns eclipses at (series_bracket eclipses at)
unfolding series_bracket
series_bracket-Returns [] at = omega arith
series_bracket-Returns (first ∷ []) at = omega arith
series_bracket-Returns (first ∷ second ∷ rest) at =
    let es = first ∷ second ∷ rest in
    let (last, e) = get_elem?-some es (length es - 1) (omega arith) in
    rw (wide, e)
      (windows-Returns first (second ∷ rest) at (omega arith) (check_windows first.saros es) _
        (check_windows-Checked first.saros es)
        (locate-Returns first (second ∷ rest) at (omega arith) last e))
  where
    wide : ltb (suc (suc (length rest))) 2 ≡ false
    wide = ground arith
