-- ===== src/Tests/Decimals.antt =====
-- Concrete numbers for the witnesses in the place of floats: without a sign, with nine decimals.
use Prim.Native.Nat.{◌/◌}
use ai_risk_engine.Observability.Costs.{Floats}
use ai_risk_engine.Prelude.{ℕ, ◌+◌, ◌*◌}
use ai_risk_engine.Prelude.Int.{ℤ, pos, negsuc}

abbrev unit : ℕ
unit = 1000000000

abbrev of_ten_thousandths : ℤ → ℕ
of_ten_thousandths (pos n) = n * 100000
of_ten_thousandths (negsuc n) = 0

abbrev pub decimals : Floats
decimals = record {
  F = ℕ;
  of_nat = λ n. n * unit;
  of_decimal = of_ten_thousandths;
  add = λ a b. a + b;
  mul = λ a b. (a * b) / unit;
  div = λ a b. (a * unit) / b;
}
