-- ===== src/Temporal/Series/Windows.antt =====
-- What the check of the pairs of a series finds.
use fractonica.Common.{ℕ, suc, ◌≡◌, ◌≢◌, refl, some, List, [], ◌∷◌, get_elem?, arith, ℕ_discrete}
use fractonica.Common.Int.{◌≤ℤ◌, ◌<ℤ◌, dec_lt_ℤ}
use fractonica.Common.Result.{ok, err}
use fractonica.Temporal.{mixed_saros_series, unsorted_eclipses, Outcome}
use fractonica.Temporal.Interval.{EclipsePoint}
use fractonica.Temporal.Series.{check_windows}

-- The pairs of a series: one Saros number, and strictly increasing times.
abbrev pub IsSeries : ℕ → List EclipsePoint → Type 0
IsSeries saros [] = Unit {0}
IsSeries saros (x ∷ []) = Unit {0}
IsSeries saros (x ∷ y ∷ rest) =
    (x.saros ≡ saros)
    × (y.saros ≡ saros)
    × (x.epoch_seconds <ℤ y.epoch_seconds)
    × IsSeries saros (y ∷ rest)

-- A point of another series, and a pair of neighbours out of order.
abbrev pub HasForeign : ℕ → List EclipsePoint → Type 0
HasForeign saros xs = (k : ℕ) × (x : EclipsePoint) × (get_elem? xs k ≡ some x) × (x.saros ≢ saros)

abbrev pub HasDescent : List EclipsePoint → Type 0
HasDescent xs =
    (k : ℕ) × (x : EclipsePoint) × (y : EclipsePoint) × (get_elem? xs k ≡ some x)
    × (get_elem? xs (suc k) ≡ some y)
    × (y.epoch_seconds ≤ℤ x.epoch_seconds)

abbrev pub Checked : ℕ → List EclipsePoint → Outcome (Unit {0}) → Type 0
Checked saros xs (ok _) = IsSeries saros xs
Checked saros xs (err mixed_saros_series) = HasForeign saros xs
Checked saros xs (err unsorted_eclipses) = HasDescent xs
Checked saros xs (err _) = ⊥

pub Checked-later :
    (saros : ℕ) (x y : EclipsePoint) (rest : List EclipsePoint) (r : Outcome (Unit {0}))
    → x.saros ≡ saros
    → y.saros ≡ saros
    → x.epoch_seconds <ℤ y.epoch_seconds
    → Checked saros (y ∷ rest) r
    → Checked saros (x ∷ y ∷ rest) r
Checked-later saros x y rest (ok _) p q lt c = (p, q, lt, c)
Checked-later saros x y rest (err mixed_saros_series) p q lt (k, z, at, ne) = (suc k, z, at, ne)
Checked-later saros x y rest (err unsorted_eclipses) p q lt (k, z, w, at, next, le) =
    (suc k, z, w, at, next, le)
Checked-later saros x y rest (err _) p q lt c = absurd c

pub check_windows-Checked :
    (saros : ℕ) (xs : List EclipsePoint) → Checked saros xs (check_windows saros xs)
unfolding check_windows
check_windows-Checked saros [] = tt
check_windows-Checked saros (x ∷ []) = tt
check_windows-Checked saros (x ∷ y ∷ rest) = elim (ℕ_discrete x.saros saros) [
  | no p ↦ moved (err mixed_saros_series) (ground arith) (0, x, refl, p)
  | yes p ↦ elim (ℕ_discrete y.saros saros) [
    | no q ↦ moved (err mixed_saros_series) (ground arith) (1, y, refl, q)
    | yes q ↦ elim (dec_lt_ℤ x.epoch_seconds y.epoch_seconds) [
      | no r ↦ moved (err unsorted_eclipses) (ground arith) (0, x, y, refl, refl, omega arith)
      | yes r ↦
          moved (check_windows saros (y ∷ rest)) (ground arith)
            (Checked-later saros x y rest _ p q r (check_windows-Checked saros (y ∷ rest)))
    ]
  ]
]
  where
    moved :
        (r : Outcome (Unit {0}))
        → check_windows saros (x ∷ y ∷ rest) ≡ r
        → Checked saros (x ∷ y ∷ rest) r
        → Checked saros (x ∷ y ∷ rest) (check_windows saros (x ∷ y ∷ rest))
    moved r e c = rw e c
