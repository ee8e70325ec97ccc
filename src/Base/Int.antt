-- ===== src/Base/Int.antt =====
-- Go's signed integers, where the code only tests their sign and their order.
use Prim.Native.Nat.{ℕ}
use mathlib.Core.Bool.{Bool, true, false}
use node_shell.Base.Tests.{ltb}

-- `negsuc n` is -(n + 1).
pub data ℤ : Type 0 where
  pos : ℕ → ℤ
  negsuc : ℕ → ℤ

abbrev pub is_positive : ℤ → Bool
is_positive (pos n) = ltb 0 n
is_positive (negsuc n) = false

abbrev pub ltℤ : ℤ → ℤ → Bool
ltℤ (pos m) (pos n) = ltb m n
ltℤ (pos m) (negsuc n) = false
ltℤ (negsuc m) (pos n) = true
ltℤ (negsuc m) (negsuc n) = ltb n m
