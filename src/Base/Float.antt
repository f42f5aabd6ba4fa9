-- ===== src/Base/Float.antt =====
-- Floating point numbers are abstract: a type with the operations that the program calls. A value of
-- `float32` is the `float64` of the same value, and `round32` is the conversion to `float32`.
use yass_simulator.Base.Int.{ℤ}
use Prim.Native.Nat.{ℕ}
use mathlib.Core.Bool.{Bool}

pub record Floats (F : Type 0) : Type 0 where
  -- a < b and a <= b. Both are false where an operand is not a number.
  pub lt : F → F → Bool
  pub le : F → F → Bool
  pub of_int : ℤ → F
  -- the conversions int64(x) and uint32(x)
  pub to_int64 : F → ℤ
  pub to_uint32 : F → ℕ
  pub round32 : F → F
  pub add : F → F → F
  pub sub : F → F → F
  pub mul : F → F → F
  pub div : F → F → F
  pub abs : F → F
  pub max : F → F → F
