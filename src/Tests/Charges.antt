-- ===== src/Tests/Charges.antt =====
-- Witnesses for the theorems on the workflows over the collectors of app/observability.
use ai_risk_engine.Exec.{Result, ok, err, pure, lift, catch, finally, when_some, ◌>>=◌}
use ai_risk_engine.Governance.Audit.{utc_now, log_action}
use ai_risk_engine.Json.{str, dict, end, field, get, get_or, truthy, equals_text}
use ai_risk_engine.Observability.Costs as Costs
use ai_risk_engine.Observability.Costs.{get_tenant_cost, add_cost, add_cost_from_tokens}
use ai_risk_engine.Observability.Costs.Conservation.{IsCharged}
use ai_risk_engine.Observability.Langfuse.{
  Collected, cost_tracker, langfuse_client, metrics_collector, log_generation, charge_generation,
}
use ai_risk_engine.Observability.Metrics as Metrics
use ai_risk_engine.Prelude.{◌≡◌, refl, true, none, some, []}
use ai_risk_engine.Prelude.Int.{pos}
use ai_risk_engine.Tests.Decimals.{decimals}
use ai_risk_engine.Workflow.Nodes.{
  NodeServices, metadata_of, policy_of, score_of, guardrail_of, decision_of, is_over_threshold,
  is_text, perf_counter, finish_node, retrieve_context, validate_policy, score_risk,
  apply_guardrails, make_decision,
}
use ai_risk_engine.Workflow.Risk.{risk_variant, execute}
use ai_risk_engine.Workflow.Run
use ai_risk_engine.Workflow.Versions
use ai_risk_engine.Workflow.Run.Charges.{run_calls}
use ai_risk_engine.Workflow.Run.Charges.Once.{IsCharging, execute_charges}
use ai_risk_engine.Workflow.Risk.Outcome.{risk-NodesAct}
use ai_risk_engine.Workflow.Run.Charges.Tenants.{run_paid, execute_charges_tenant}
use ai_risk_engine.Workflow.Run.Charges.Variants.{risk-VariantKeeps}
use ai_risk_engine.Workflow.Run.{report, evaluate}
use ai_risk_engine.Workflow.Sequence.{
  run_traced, with_span, traced, run_node, run_unless_done, run_all_nodes,
}
use ai_risk_engine.Workflow.Versions.{model_version_of, prompt_version_of}
use ai_risk_engine.Workflow.Services.{Services}
use ai_risk_engine.Workflow.State.{RiskState, trail_has, node_done}

abbrev node_services : NodeServices (Collected decimals)
node_services = record {
  audit = record { now = λ c. ("2026-01-01", c); save = λ r c. (ok tt, c) };
  perf = λ c. (0, c);
  elapsed_ms = λ start end_time. pos 1;
  latency_ms = λ start end_time. pos 1;
  str_of = λ v. "text";
}

-- With a cost tracker, a collector of metrics, and a Langfuse client that has both.
abbrev services : Services (Collected decimals) RiskState
services = record {
  node = node_services;
  store = none;
  models = none;
  prompts = none;
  metrics = some (metrics_collector decimals);
  tracing = none;
  cost = some (cost_tracker decimals);
  has_failure_classifier = true;
  langfuse = some (langfuse_client decimals true true);
  evaluation = none;
}

abbrev costs_of : Collected decimals → Costs.CostTracker decimals
costs_of c = c.costs

services-IsCharging : IsCharging risk_variant services costs_of true
unfolding log_generation charge_generation
services-IsCharging = record {
  nodes = risk-VariantKeeps (record {
    perf_keeps = λ w. refl;
    now_keeps = λ w. refl;
    save_keeps = λ r. record { at = λ w. refl };
  });
  others = record {
    node = record {
      perf_keeps = λ w. refl;
      now_keeps = λ w. refl;
      save_keeps = λ r. record { at = λ w. refl };
    };
    models = tt;
    prompts = tt;
    metrics = (λ n t c. record { at = λ w. refl }, λ n x l. record { at = λ w. refl });
    tracing = tt;
    evaluations = tt;
    stored = tt;
  };
  tracked = λ t x m r w. (_, refl, refl);
  generated = λ g w. (_, refl, refl);
  common-with_common = λ s r. refl;
}

abbrev new_state : RiskState
new_state = record {
  event_id = "e1";
  tenant_id = "t1";
  correlation_id = "c1";
  raw_event = field "metadata" (dict (field "category" (str "sensitive") end)) end;
  retrieved_context = none;
  policy_result = none;
  risk_score = none;
  guardrail_result = none;
  final_decision = none;
  model_version = "simulated@1";
  prompt_version = 1;
  audit_trail = [];
  idempotency_key = none;
  evaluation_result = none;
}

abbrev collected : Collected decimals
collected = record {
  costs = Costs.new decimals (Costs.default_rate decimals);
  metrics = Metrics.new;
  generations = [];
}

abbrev result : Result RiskState × Collected decimals
result = execute services 0 new_state collected

abbrev state_of : Result RiskState → RiskState
state_of (ok u) = u
state_of (err e) = new_state

execute_charges_example :
    IsCharged (run_calls decimals services true (state_of result.0)) collected.costs result.1.costs
unfolding Run.execute Versions.resolve_versions model_version_of prompt_version_of run_traced
    with_span traced run_node run_unless_done run_all_nodes report evaluate pure lift catch finally
    when_some ◌>>=◌ utc_now log_action metadata_of policy_of score_of guardrail_of decision_of
    is_over_threshold is_text perf_counter finish_node retrieve_context validate_policy score_risk
    apply_guardrails make_decision get get_or truthy equals_text trail_has node_done
execute_charges_example = execute_charges services-IsCharging 0 new_state collected

result_ok : execute services 0 new_state collected ≡ (ok (state_of result.0), result.1)
unfolding Run.execute Versions.resolve_versions model_version_of prompt_version_of run_traced
    with_span traced run_node run_unless_done run_all_nodes report evaluate pure lift catch finally
    when_some ◌>>=◌ utc_now log_action metadata_of policy_of score_of guardrail_of decision_of
    is_over_threshold is_text perf_counter finish_node retrieve_context validate_policy score_risk
    apply_guardrails make_decision get get_or truthy equals_text trail_has node_done
result_ok = refl

execute_charges_tenant_example :
    get_tenant_cost "t1" result.1.costs
    ≡ run_paid decimals 2000000 services true (get_tenant_cost "t1" collected.costs)
execute_charges_tenant_example =
    execute_charges_tenant services-IsCharging (risk-NodesAct node_services) 0 new_state collected
      result.1 (state_of result.0) "t1" refl result_ok
