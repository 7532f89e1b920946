-- ===== src/Base/Float.antt =====
-- Go's float64 and package math: a type with the operations that the program uses. Their laws are
-- hypotheses of the theorems that need them.
use Prim.Native.Nat.{ℕ}
use mathlib.Core.Bool.{Bool}
use go_kafka.Base.Int.{ℤ}

-- `le` and `lt` are false where an operand is NaN. `of_ratio n d` is the constant n / d.
pub record Float64 : Type 1 where
  pub F : Type 0
  pub of_int : ℤ → F
  pub of_ratio : ℕ → ℕ → F
  pub le : F → F → Bool
  pub lt : F → F → Bool
  pub add : F → F → F
  pub sub : F → F → F
  pub mul : F → F → F
  pub div : F → F → F
  pub min : F → F → F
  pub max : F → F → F
  pub log2 : F → F
  pub round : F → F
  pub trunc : F → ℤ
