-- ===== src/Common/Floats.antt =====
-- The arithmetic of C's `float` and `double`, which the emulator uses and does not implement: a
-- parameter of the model. `Float` holds the doubles, and the floats among them.
use mathlib.Core.Bool.{Bool}
use c_faas_emulator.Common.Int.{ℤ}
use c_faas_emulator.Common.Name.{Name}

pub record Floats : Type 1 where
  pub Float : Type 0
  pub nought : Float  -- 0.0
  pub point_eight : Float  -- 0.8
  pub literal : Name → Float  -- a constant as it is written
  pub of_int : ℤ → Float  -- (float) of an int
  pub of_long : ℤ → Float  -- (double) of a long
  pub to_float : Float → Float  -- (float) of a double
  pub div_float : Float → Float → Float  -- `/` on floats
  pub add_float : Float → Float → Float  -- `+` on floats
  pub add : Float → Float → Float  -- `+`, `-`, `*` on doubles
  pub sub : Float → Float → Float
  pub mul : Float → Float → Float
  pub div : Float → Float → Float  -- `/` on doubles
  pub lt : Float → Float → Bool  -- `<`; `a > b` is `lt b a`
  pub le : Float → Float → Bool  -- `<=`; `a >= b` is `le b a`
