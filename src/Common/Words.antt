-- ===== src/Common/Words.antt =====
-- Unsigned machine integers of w bits as native numbers below 2 ^ w. Each operation writes out the
-- wrap-around of the release profile.
use Prim.Native.Nat.{ℕ, ◌+◌, ◌-◌, ◌*◌, ◌/◌, ◌%◌, ◌^◌}
use mathlib.Core.Option.{Option, none, some}
use fractonica.Common.Tests.{ltb, if◌then◌else◌}

abbrev pub add_u : ℕ → ℕ → ℕ → ℕ
add_u w a b = (a + b) % 2 ^ w

abbrev pub sub_u : ℕ → ℕ → ℕ → ℕ
sub_u w a b = (a + 2 ^ w - b) % 2 ^ w

abbrev pub mul_u : ℕ → ℕ → ℕ → ℕ
mul_u w a b = a * b % 2 ^ w

-- `a << k` and `a >> k`, for a shift below the width.
abbrev pub shl_u : ℕ → ℕ → ℕ → ℕ
shl_u w a k = a * 2 ^ k % 2 ^ w

abbrev pub shr : ℕ → ℕ → ℕ
shr a k = a / 2 ^ k

abbrev pub checked_mul_u : ℕ → ℕ → ℕ → Option ℕ
checked_mul_u w a b = if ltb (a * b) (2 ^ w) then some (a * b) else none
