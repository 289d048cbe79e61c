-- ===== src/Float.antt =====
-- `f64` and its formatting, which are not built into the logic: a type with the operations that
-- the module uses.
use ngx_vts.Prelude.{ℕ, Bytes}

pub record F64 : Type 1 where
  pub Carrier : Type 0
  -- `n as f64`
  pub of_u64 : ℕ → Carrier
  -- `x / y`
  pub div : Carrier → Carrier → Carrier
  -- `x * y`
  pub mul : Carrier → Carrier → Carrier
  -- `format!("{x:.p$}")`
  pub to_fixed : Carrier → ℕ → Bytes
