-- ===== src/Expressions/Numbers.antt =====
-- Floating-point numbers: the operations that the functions of the language use, with what the proofs
-- need of their order.
use Prim.Native.Nat.{ℕ}
use weather_agent.Prelude.{Bool, true, false, ◌≡◌}
use weather_agent.Prelude.Decimal.{ℤ}

pub record Numbers : Type 1 where
  pub F : Type 0
  pub lt : F → F → Bool
  pub is_zero : F → Bool
  pub add : F → F → F
  pub sub : F → F → F
  pub mul : F → F → F
  pub div : F → F → F
  pub abs : F → F
  pub sqrt : F → F
  pub of_nat : ℕ → F
  pub floor : F → ℤ
  pub ceil : F → ℤ

-- The order is strict and total up to equivalence: it holds of numbers other than NaN.
pub record IsOrder (n : Numbers) : Type 0 where
  pub irreflexive : (a : n.F) → n.lt a a ≡ false
  pub asymmetric : (a b : n.F) → n.lt a b ≡ true → n.lt b a ≡ false
  pub transitive : (a b c : n.F) → n.lt b a ≡ false → n.lt c b ≡ false → n.lt c a ≡ false
