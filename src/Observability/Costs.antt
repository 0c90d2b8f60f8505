-- ===== src/Observability/Costs.antt =====
-- app/observability/cost_tracker.py. The floats of Python are a parameter, `Floats`, with the
-- operations that the tracker uses and no laws: sums are taken in the order of the program. The lock
-- makes each call atomic.
pub mod Conservation
use ai_risk_engine.Prelude.{
  ℕ, ◌+◌, Bool, String, Option, none, some, [], Table, lookup, insert, is_empty, if◌then◌else◌,
}
use ai_risk_engine.Prelude.Int.{ℤ, pos}

-- The type `float`: `float(n)`, the value of a decimal literal, given in ten-thousandths, and the
-- operators.
pub record Floats : Type 1 where
  pub F : Type 0
  pub of_nat : ℕ → F
  pub of_decimal : ℤ → F
  pub add : F → F → F
  pub mul : F → F → F
  pub div : F → F → F

pub record CostTracker (floats : Floats) : Type 0 where
  pub rate_per_1k : floats.F
  pub tenant_costs : Table floats.F
  pub model_costs : Table floats.F
  pub request_costs : Table floats.F
  pub cumulative : floats.F

-- The arguments of `add_cost`.
pub record Charge (floats : Floats) : Type 0 where
  pub tenant_id : String
  pub amount : floats.F
  pub model_version : Option String
  pub request_id : Option String

module _ (floats : Floats) where
  -- The default of `rate_per_1k_tokens`: 0.002.
  abbrev pub default_rate : floats.F
  default_rate = floats.of_decimal (pos 20)

  -- `CostTracker.__init__`
  abbrev pub new : floats.F → CostTracker floats
  new rate_per_1k = record {
    rate_per_1k = rate_per_1k;
    tenant_costs = [];
    model_costs = [];
    request_costs = [];
    cumulative = floats.of_nat 0;
  }

  abbrev or_zero : Option floats.F → floats.F
  or_zero none = floats.of_nat 0
  or_zero (some x) = x

  -- `costs.get(key, 0)`, where 0 counts as 0.0
  unfoldable pub cost_at : String → Table floats.F → floats.F
  cost_at key costs = or_zero (lookup key costs)

  -- `costs[key] = costs.get(key, 0) + amount`
  unfoldable pub add_at : String → floats.F → Table floats.F → Table floats.F
  unfolding cost_at
  add_at key amount costs = insert key (floats.add (cost_at key costs) amount) costs

  -- `if key: costs[key] = costs.get(key, 0) + amount`
  unfoldable pub attribute : Option String → floats.F → Table floats.F → Table floats.F
  attribute none amount costs = costs
  attribute (some key) amount costs = if is_empty key then costs else add_at key amount costs

  -- `(total / 1000.0) * self._rate_per_1k`
  abbrev pub cost_of_tokens : floats.F → ℕ → ℕ → floats.F
  cost_of_tokens rate_per_1k input_tokens output_tokens =
      floats.mul (floats.div (floats.of_nat (input_tokens + output_tokens)) (floats.of_nat 1000))
        rate_per_1k

module _ {floats : Floats} where
  unfoldable pub add_cost : Charge floats → CostTracker floats → CostTracker floats
  unfolding attribute add_at
  add_cost charge tracker = record tracker {
    cumulative = floats.add tracker.cumulative charge.amount;
    tenant_costs = add_at floats charge.tenant_id charge.amount tracker.tenant_costs;
    model_costs = attribute floats charge.model_version charge.amount tracker.model_costs;
    request_costs = attribute floats charge.request_id charge.amount tracker.request_costs;
  }

  unfoldable pub add_cost_from_tokens :
      String
      → ℕ
      → ℕ
      → Option String
      → Option String
      → CostTracker floats
      → floats.F × CostTracker floats
  unfolding add_cost
  add_cost_from_tokens tenant_id input_tokens output_tokens model_version request_id tracker =
      let amount = cost_of_tokens floats tracker.rate_per_1k input_tokens output_tokens in
      (
        amount,
        add_cost
            (record {
              tenant_id = tenant_id;
              amount = amount;
              model_version = model_version;
              request_id = request_id;
            })
            tracker,
      )

  unfoldable pub get_tenant_cost : String → CostTracker floats → floats.F
  unfolding cost_at
  get_tenant_cost tenant_id tracker = cost_at floats tenant_id tracker.tenant_costs

  unfoldable pub get_cumulative : CostTracker floats → floats.F
  get_cumulative tracker = tracker.cumulative

  unfoldable pub get_request_cost : String → CostTracker floats → floats.F
  unfolding cost_at
  get_request_cost request_id tracker = cost_at floats request_id tracker.request_costs

  unfoldable pub reset : CostTracker floats → CostTracker floats
  reset tracker = record tracker {
    tenant_costs = [];
    model_costs = [];
    request_costs = [];
    cumulative = floats.of_nat 0;
  }
