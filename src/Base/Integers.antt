-- ===== src/Base/Integers.antt =====
-- The signed numbers that the code adds to its counters.
use Prim.Native.Nat.{ℕ, zero, suc, ◌+◌, ◌-◌}
use mathlib.Core.Option.{Option, none, some}
use multi_tenant_subscriptio.Base.Tests.{ltb, if◌then◌else◌}

-- `negsuc n` is -(n + 1).
pub data ℤ : Type 0 where
  pos : ℕ → ℤ
  negsuc : ℕ → ℤ

-- `-n`, for a count `n`.
abbrev pub neg : ℕ → ℤ
neg n = elim n [ zero ↦ pos 0 | suc k ↦ negsuc k ]

-- `column + delta` for a column that a CHECK keeps at zero or more: `none` where it would fall
-- below zero.
abbrev pub add_delta : ℕ → ℤ → Option ℕ
add_delta n (pos k) = some (n + k)
add_delta n (negsuc k) = if ltb n (suc k) then none else some (n - suc k)
