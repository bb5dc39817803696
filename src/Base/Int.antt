-- ===== src/Base/Int.antt =====
-- Python's integers where a negative one has to be told apart.
use Prim.Native.Nat.{ℕ, zero, suc, ◌+◌, ◌-◌}
use mathlib.Core.Bool.{Bool, true, false}
use chip_evolve.Base.Tests.{leb}

-- `negsuc n` is -(n + 1).
pub data ℤ : Type 0 where
  pos : ℕ → ℤ
  negsuc : ℕ → ℤ

-- `0 < z`
abbrev pub is_positive : ℤ → Bool
is_positive (pos zero) = false
is_positive (pos (suc n)) = true
is_positive (negsuc n) = false

-- `z ≤ n` for a count `n`
abbrev pub le_count : ℤ → ℕ → Bool
le_count (pos m) n = leb m n
le_count (negsuc m) n = true

-- The time `z` seconds from `n`, in whole units; times start at 0.
abbrev pub plus : ℕ → ℤ → ℕ
plus n (pos m) = n + m
plus n (negsuc m) = n - suc m
