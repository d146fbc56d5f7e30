-- ===== src/Base/Int.antt =====
-- Signed machine integers that the code only compares: `negsuc n` is -(n + 1).
use Prim.Native.Nat.{ℕ, zero, suc}
use mathlib.Core.Bool.{Bool, true, false}
use kubling_providers.Base.Tests.{leb}

pub data ℤ : Type 0 where
  pos : ℕ → ℤ
  negsuc : ℕ → ℤ

-- `x <= 0`
abbrev pub is_nonpos : ℤ → Bool
is_nonpos (pos zero) = true
is_nonpos (pos (suc n)) = false
is_nonpos (negsuc n) = true

-- `x > y`
abbrev pub gt_int : ℤ → ℤ → Bool
gt_int (pos a) (pos b) = elim (leb a b) [ true ↦ false | false ↦ true ]
gt_int (pos a) (negsuc b) = true
gt_int (negsuc a) (pos b) = false
gt_int (negsuc a) (negsuc b) = elim (leb b a) [ true ↦ false | false ↦ true ]
