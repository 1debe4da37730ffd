-- ===== src/Prelude/Int.antt =====
-- The integers that a caller may pass where the program checks the sign.
use Prim.Native.Nat.{ℕ}
use mathlib.Core.Bool.{Bool, false}
use pf_core.Prelude.Tests.{leb}

pub data ℤ : Type 0 where
  pos : ℕ → ℤ
  -- `negsuc n` is -(n + 1)
  negsuc : ℕ → ℤ

-- max(0, i)
abbrev pub pos_part : ℤ → ℕ
pos_part (pos n) = n
pos_part (negsuc n) = 0

-- 0 <= i <= hi
abbrev pub in_range : ℕ → ℤ → Bool
in_range hi (pos n) = leb n hi
in_range hi (negsuc n) = false
