-- ===== src/Observability/Langfuse.antt =====
-- app/observability/langfuse_client.py, and the collectors as the workflows call them: the records of
-- Workflow/Services filled by this layer. Costs are floats, as in Observability/Costs. The argument
-- `cost_tracker` of a call, which no caller gives, is left out.
use ai_risk_engine.Exec.{ok}
use ai_risk_engine.Observability.Costs.{
  Floats, add_cost, add_cost_from_tokens, cost_of_tokens, default_rate,
}
use ai_risk_engine.Observability.Costs as Costs
use ai_risk_engine.Observability.Metrics as Metrics
use ai_risk_engine.Observability.Metrics.{increment, observe_latency}
use ai_risk_engine.Prelude.{
  ℕ, Bool, true, false, String, none, some, List, [], ◌∷◌, ◌++◌, if◌then◌else◌,
}
use ai_risk_engine.Prelude.Int.{ℤ, whole}
use ai_risk_engine.Workflow.Services.{MetricsCollector, CostTracker, LangfuseClient, Generation}

pub record GenerationRecord (floats : Floats) : Type 0 where
  pub event_id : String
  pub tenant_id : String
  pub prompt_version : ℕ
  pub model_version : String
  pub input_tokens : ℕ
  pub output_tokens : ℕ
  pub estimated_cost : floats.F
  pub latency_ms : ℤ

-- What the collectors keep, the newest generation last.
pub record Collected (floats : Floats) : Type 0 where
  pub costs : Costs.CostTracker floats
  pub metrics : Metrics.MetricsCollector
  pub generations : List (GenerationRecord floats)

unfoldable pub count_usage : Metrics.MetricsCollector → Metrics.MetricsCollector
unfolding increment
count_usage m =
    increment "prompt_usage_count" (whole 1) none none
      (increment "model_usage_count" (whole 1) none none m)

module _ {floats : Floats} where
  -- The cost, charged if the client has a tracker and estimated at the default rate if not.
  unfoldable pub charge_generation :
      Bool → Generation → Collected floats → floats.F × Collected floats
  unfolding add_cost_from_tokens
  charge_generation false g c =
      (cost_of_tokens floats (default_rate floats) g.input_tokens g.output_tokens, c)
  charge_generation true g c =
      let (cost, costs) =
        add_cost_from_tokens g.tenant_id g.input_tokens g.output_tokens (some g.model_version)
          (some g.event_id) c.costs in
      (cost, record c { costs = costs })

  -- `log_generation` of a client with or without a tracker and a collector of metrics
  unfoldable pub log_generation :
      Bool → Bool → Generation → Collected floats → floats.F × Collected floats
  unfolding charge_generation count_usage
  log_generation has_tracker has_metrics g before =
      let (cost, c) = charge_generation has_tracker g before in
      (
        cost,
        record c {
          generations =
              c.generations
              ++ record {
                event_id = g.event_id;
                tenant_id = g.tenant_id;
                prompt_version = g.prompt_version;
                model_version = g.model_version;
                input_tokens = g.input_tokens;
                output_tokens = g.output_tokens;
                estimated_cost = cost;
                latency_ms = g.latency_ms;
              }
                ∷ [];
          metrics = if has_metrics then count_usage c.metrics else c.metrics;
        },
      )

module _ (floats : Floats) where
  -- The collectors as the collaborators of a workflow.
  abbrev pub metrics_collector : MetricsCollector (Collected floats)
  metrics_collector = record {
    increment = λ name tenant_id category c.
        (ok tt, record c { metrics = increment name (whole 1) tenant_id category c.metrics });
    observe_latency = λ name latency_ms node c.
        (ok tt, record c { metrics = observe_latency name latency_ms node c.metrics });
  }

  abbrev pub cost_tracker : CostTracker (Collected floats)
  cost_tracker = record {
    add_cost = λ tenant_id amount model_version request_id c. (
      ok tt,
      record c {
        costs =
            add_cost
              (record {
                tenant_id = tenant_id;
                amount = floats.of_decimal amount;
                model_version = some model_version;
                request_id = some request_id;
              })
              c.costs;
      },
    );
  }

  abbrev pub langfuse_client : Bool → Bool → LangfuseClient (Collected floats)
  langfuse_client has_tracker has_metrics = record {
    log_generation = λ g c. (ok tt, (log_generation has_tracker has_metrics g c).1);
  }
