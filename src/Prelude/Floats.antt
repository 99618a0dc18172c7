-- ===== src/Prelude/Floats.antt =====
-- The type double and the operations on it that the sources use, with the facts that they rely on.
use Prim.Native.Nat.{ℕ}
use Prim.Native.String.{String}
use mathlib.Core.Path.{◌≡◌}
use mathlib.Core.Bool.{Bool, true, false}
use rdws_us.Prelude.Int.{ℤ}

pub record Floats : Type 1 where
  pub D : Type 0
  pub of_int : ℤ → D
  -- `lit m e` is the decimal literal m · 10⁻ᵉ.
  pub lit : ℕ → ℕ → D
  pub add : D → D → D
  pub mul : D → D → D
  pub div : D → D → D
  -- static_cast<long>
  pub trunc : D → ℤ
  pub lt : D → D → Bool
  -- std::to_string(double)
  pub show : D → String
  pub lt_irrefl : (x : D) → lt x x ≡ false
  pub lt_trans : (x y z : D) → lt x y ≡ true → lt y z ≡ true → lt x z ≡ true
