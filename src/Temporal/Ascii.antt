-- ===== src/Temporal/Ascii.antt =====
-- The loops `for (index, destination) in output.iter_mut().take(count).enumerate()`.
use fractonica.Common.{ℕ, zero, suc, ◌+◌, Option, List, [], ◌∷◌, unwrap_or}
use fractonica.Common.Words.{add_u}

-- The loops that write one ASCII digit for each place of `output`, up to `count` of them.
unfoldable pub write_places : (ℕ → Option ℕ) → ℕ → ℕ → List ℕ → List ℕ
write_places digit index zero output = output
write_places digit index (suc count) [] = []
write_places digit index (suc count) (_ ∷ output) =
    add_u 8 48 (unwrap_or (digit index) 0) ∷ write_places digit (index + 1) count output
