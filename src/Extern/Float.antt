-- ===== src/Extern/Float.antt =====
-- `f64`: the operations that the entropy test uses. Nothing is asked of them.
use clipy_si_core.Common.{ℕ, Bool, List}

pub record FloatOps (F : Type 0) : Type 0 where
  -- The literal `m * 10^-d`.
  pub decimal : ℕ → ℕ → F
  pub of_nat : ℕ → F
  pub neg : F → F
  pub mul : F → F → F
  pub div : F → F → F
  pub log2 : F → F
  pub min : F → F → F
  pub sum : List F → F
  pub lt : F → F → Bool
  pub ge : F → F → Bool
