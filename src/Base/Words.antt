-- ===== src/Base/Words.antt =====
-- Fixed-width unsigned arithmetic, and the exit codes of a process.
use Prim.Native.Nat.{ℕ, ◌+◌, ◌*◌, ◌≤◌}
use mathlib.Core.Bool.{Bool, false}
use mathlib.Core.Option.{Option, none, some}
use native.Mathlib.Omega.{arith}
use nxr.Base.Tests.{if◌then◌else◌, leb}

-- `negsuc n` is -(n + 1).
pub data ℤ : Type 0 where
  pos : ℕ → ℤ
  negsuc : ℕ → ℤ

abbrev pub is_zero : ℤ → Bool
is_zero (pos n) = leb n 0
is_zero (negsuc n) = false

abbrev pub u32_max : ℕ
u32_max = 4294967295

abbrev pub u64_max : ℕ
u64_max = 18446744073709551615

-- `saturating_add` and `checked_mul` of the width whose largest value is `max`. The difference of
-- naturals already saturates at 0.
abbrev pub saturating_add : (max a b : ℕ) → ℕ
saturating_add max a b = if leb (a + b) max then a + b else max

abbrev pub checked_mul : (max a b : ℕ) → Option ℕ
checked_mul max a b = if leb (a * b) max then some (a * b) else none

pub saturating_add-le : (max a b : ℕ) → saturating_add max a b ≤ max
saturating_add-le max a b = ground arith
