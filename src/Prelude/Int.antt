-- ===== src/Prelude/Int.antt =====
-- Python's integers over the native numbers, as far as the program compares them.
use Prim.Native.Nat.{ℕ}
use mathlib.Core.Bool.{Bool, true, false}
use quilr_ai_mcp.Prelude.Tests.{◌==◌}

-- `negsuc n` is -(n + 1).
pub data ℤ : Type 0 where
  pos : ℕ → ℤ
  negsuc : ℕ → ℤ

-- `z != 0`
abbrev pub is_nonzero : ℤ → Bool
is_nonzero (pos n) = not_zero (n == 0)
  where
    not_zero : Bool → Bool
    not_zero true = false
    not_zero false = true
is_nonzero (negsuc _) = true
