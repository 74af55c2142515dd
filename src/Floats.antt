-- ===== src/Floats.antt =====
-- Go's float64, as far as internal/analysis uses it: a type with operations of which nothing is known
-- but what a theorem asks for.
pub mod Decimal
use rightsizer.Prelude.{ℕ, Bool}

pub record Floats : Type 1 where
  pub F : Type 0
  -- float64(n)
  pub of_int : ℕ → F
  pub add : F → F → F
  pub sub : F → F → F
  pub mul : F → F → F
  pub div : F → F → F
  pub sqrt : F → F
  -- max and min
  pub larger : F → F → F
  pub smaller : F → F → F
  -- x <= y and x < y
  pub le : F → F → Bool
  pub lt : F → F → Bool
  pub is_nan : F → Bool
  -- int(x) of an x that is not negative, and of its math.Ceil
  pub trunc : F → ℕ
  pub ceil : F → ℕ
  -- float32(x), as a float64
  pub round32 : F → F
