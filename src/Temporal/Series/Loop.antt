-- ===== src/Temporal/Series/Loop.antt =====
-- The binary search ends at the place where the times pass the instant.
use fractonica.Common.{
  ℕ, zero, suc, ◌+◌, ◌-◌, ◌/◌, ◌≤◌, ◌<◌, ◌≡◌, ap, ◌∙◌, some, List, length, get_elem?,
  get_elem?-some, arith, dec_lt,
}
use fractonica.Common.Int.{ℤ, ◌≤ℤ◌, ◌<ℤ◌, dec_lt_ℤ}
use fractonica.Temporal.Interval.{EclipsePoint}
use fractonica.Temporal.Series.{search_loop}

module _ (eclipses : List EclipsePoint) (at : ℤ) where
  -- The point before the place is not after the instant, and the point at the place is.
  pub record Splits (low : ℕ) : Type 0 where
    pub previous : EclipsePoint
    pub next : EclipsePoint
    pub previous_is : get_elem? eclipses (low - 1) ≡ some previous
    pub next_is : get_elem? eclipses low ≡ some next
    pub positive : 1 ≤ low
    pub reached : previous.epoch_seconds ≤ℤ at
    pub not_reached : at <ℤ next.epoch_seconds

  -- The loop's invariant.
  pub record Around (low high : ℕ) : Type 0 where
    pub previous : EclipsePoint
    pub next : EclipsePoint
    pub previous_is : get_elem? eclipses (low - 1) ≡ some previous
    pub next_is : get_elem? eclipses high ≡ some next
    pub positive : 1 ≤ low
    pub ordered : low ≤ high
    pub inside : high < length eclipses
    pub reached : previous.epoch_seconds ≤ℤ at
    pub not_reached : at <ℤ next.epoch_seconds

  pub meet : (low high : ℕ) → Around low high → ¬ (low < high) → Splits low
  meet low high v h = record {
    previous = v.previous;
    next = v.next;
    previous_is = v.previous_is;
    next_is = ap (get_elem? eclipses) (omega (arith, v.ordered)) ∙ v.next_is;
    positive = v.positive;
    reached = v.reached;
    not_reached = v.not_reached;
  }

  abbrev pub middle : ℕ → ℕ → ℕ
  middle low high = low + (high - low) / 2

  pub go_left :
      (low high : ℕ) (mid : EclipsePoint)
      → Around low high
      → low < high
      → get_elem? eclipses (middle low high) ≡ some mid
      → at <ℤ mid.epoch_seconds
      → Around low (middle low high)
  go_left low high mid v lt e above = record {
    previous = v.previous;
    next = mid;
    previous_is = v.previous_is;
    next_is = e;
    positive = v.positive;
    ordered = omega arith;
    inside = omega (arith, v.inside);
    reached = v.reached;
    not_reached = above;
  }

  pub go_right :
      (low high : ℕ) (mid : EclipsePoint)
      → Around low high
      → low < high
      → get_elem? eclipses (middle low high) ≡ some mid
      → mid.epoch_seconds ≤ℤ at
      → Around (middle low high + 1) high
  go_right low high mid v lt e below = record {
    previous = mid;
    next = v.next;
    previous_is = ap (get_elem? eclipses) (omega arith) ∙ e;
    next_is = v.next_is;
    positive = omega arith;
    ordered = omega arith;
    inside = v.inside;
    reached = below;
    not_reached = v.not_reached;
  }

  -- Enough fuel for the width finds a split, whatever the order of the slice.
  pub search_loop-Splits :
      (fuel low high : ℕ)
      → Around low high
      → high - low < fuel
      → (k : ℕ) × (search_loop fuel eclipses at low high ≡ some k) × Splits k
  unfolding search_loop
  search_loop-Splits zero low high v h = absurd (omega arith)
  search_loop-Splits (suc fuel) low high v h = elim (dec_lt low high) [
    | no met ↦ (low, ground arith, meet low high v met)
    | yes lt ↦
        let (mid, e) = get_elem?-some eclipses (middle low high) (omega (arith, v.inside)) in
        elim (dec_lt_ℤ at mid.epoch_seconds) [
          | yes above ↦
              let (k, found, s) =
                search_loop-Splits fuel low (middle low high) (go_left low high mid v lt e above)
                  (omega arith) in
              (k, ground arith, s)
          | no below ↦
              let (k, found, s) =
                search_loop-Splits fuel (middle low high + 1) high
                  (go_right low high mid v lt e (omega arith)) (omega arith) in
              (k, ground arith, s)
        ]
  ]
