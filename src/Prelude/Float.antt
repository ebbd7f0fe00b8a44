-- ===== src/Prelude/Float.antt =====
-- Python's floats as an interface: the operations that the program uses, with no laws.
use emunel.Prelude.{ℕ, Bool}

pub record Floats : Type 1 where
  pub Float : Type 0
  -- float(n)
  pub of_nat : ℕ → Float
  -- the literal n / d
  pub literal : ℕ → ℕ → Float
  pub add : Float → Float → Float
  pub sub : Float → Float → Float
  pub mul : Float → Float → Float
  pub div : Float → Float → Float
  pub ltb : Float → Float → Bool
  pub leb : Float → Float → Bool
  pub eqb : Float → Float → Bool
  -- int(x) of a number that is not negative
  pub trunc : Float → ℕ
