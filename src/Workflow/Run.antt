-- ===== src/Workflow/Run.antt =====
-- `run` of `RiskWorkflow` and of `ComplianceWorkflow`, app/workflows/langgraph/risk_workflow.py and
-- compliance_workflow.py: the same text but for what `Variant` lists, so it is written once, for any
-- variant, from the parts in Workflow/Versions and Workflow/Sequence. Workflow/Risk and Workflow/Compliance/Run are the two. The log lines are not modelled.
pub mod Trail
pub mod Decision
pub mod Contract
pub mod Specs
pub mod Correct
pub mod Steps
pub mod Outcome
pub mod Replay
pub mod Charges
pub mod Keeps
use Prim.Native.String.{◌++◌ as text_append}
use ai_risk_engine.Errors.{Error, ErrorClass, model_not_approved_error, prompt_not_approved_error}
use ai_risk_engine.Exec.{
  Exec, Result, ok, err, pure, throw, lift, catch, finally, when_some, ◌>>=◌, ◌>>◌,
}
use ai_risk_engine.Governance.Audit.{AuditRecord, log_action, untimed}
use ai_risk_engine.Governance.Models.{ModelRegistryRepository, get_approved_model}
use ai_risk_engine.Governance.Prompts.{PromptRegistryRepository, get_approved_prompt}
use ai_risk_engine.Json.{str, field, end}
use ai_risk_engine.Observability.Failures.{FailureCategory, isinstance, classify, category_value}
use ai_risk_engine.Prelude.{
  ℕ, Bool, true, false, ◌&&◌, ◌||◌, not, String, Option, none, some, [], ◌∷◌, if◌then◌else◌, ◌==◌,
  is_empty, leb,
}
use ai_risk_engine.Prelude.Int.{ℤ, pos}
use ai_risk_engine.Workflow.Nodes.{NodeServices, perf_counter}
use ai_risk_engine.Workflow.Services.{
  Services, EvaluationService, WorkflowStateStore, MetricsCollector, TracingService, Span, SpanArgs,
  Generation, DecisionFacts,
}
use ai_risk_engine.Workflow.State.{RiskState, node_done}
use ai_risk_engine.Workflow.Sequence.{run_traced}
use ai_risk_engine.Workflow.Variant.{Shape, Variant}
use ai_risk_engine.Workflow.Versions.{resolve_versions, on_governance_error}

-- `x or ""`
abbrev text_or_empty : Option String → String
text_or_empty none = ""
text_or_empty (some s) = s

module _ {W S : Type 0} (variant : Variant W S) (services : Services W S) where
  open variant.shape use {common, with_common}
  open services use {node, store, metrics, tracing, cost, langfuse, evaluation}

  -- `if self._evaluation: …`
  unfoldable pub evaluate : Option (EvaluationService W) → S → Exec W S
  unfolding pure ◌>>=◌
  evaluate none current = pure current
  evaluate (some ev) current = do
    result ← ev.evaluate_decision (record {
      tenant_id = (common current).tenant_id;
      event_id = (common current).event_id;
      correlation_id = (common current).correlation_id;
      final_decision = text_or_empty (common current).final_decision;
      policy_result = text_or_empty (common current).policy_result;
      guardrail_result = text_or_empty (common current).guardrail_result;
      risk_score = (common current).risk_score;
    })
    pure (with_common current (record (common current) { evaluation_result = some result }))

  -- The observability hooks between the nodes and the evaluation.
  unfoldable pub report : ℕ → S → Exec W (Unit {0})
  unfolding pure ◌>>=◌
  report request_start current = do
    when_some metrics (λ m.
        if variant.needs_approval current
        then m.increment "approval_required_count" none none
        else pure tt)
    request_end ← perf_counter node
    let request_latency_ms = node.latency_ms request_start request_end
    when_some metrics (λ m. m.observe_latency "request_latency" request_latency_ms none)
    when_some cost (λ c.
        c.add_cost (common current).tenant_id (pos 100) (common current).model_version
          (common current).event_id)
    when_some langfuse (λ l. l.log_generation (record {
      event_id = (common current).event_id;
      tenant_id = (common current).tenant_id;
      prompt_version = (common current).prompt_version;
      model_version = (common current).model_version;
      input_tokens = 100;
      output_tokens = 50;
      latency_ms = request_latency_ms;
    }))

  -- The body of the `try`, when nothing is cached.
  unfoldable pub execute : ℕ → S → Exec W S
  unfolding pure ◌>>=◌
  execute request_start state = do
    resolved ←
        catch (resolve_versions variant services state) (on_governance_error variant services state)
    decided ← run_traced variant services tracing resolved
    report request_start decided
    evaluated ← evaluate evaluation decided
    when_some store (λ st. st.set_state (common evaluated).event_id evaluated)
    pure evaluated

  abbrev cached_or : ℕ → S → Option S → Exec W S
  cached_or request_start state none = execute request_start state
  cached_or request_start state (some cached) = pure cached

  -- The body of the `try`.
  unfoldable pub look_up_or_execute : Option (WorkflowStateStore W S) → ℕ → S → Exec W S
  unfolding pure ◌>>=◌
  look_up_or_execute none request_start state = execute request_start state
  look_up_or_execute (some st) request_start state = do
    cached ← st.get_state (common state).event_id
    cached_or request_start state cached

  -- The outer handler.
  unfoldable pub on_failure : Error → Exec W S
  unfolding pure ◌>>=◌
  on_failure e = do
    when_some metrics (λ m.
        if services.has_failure_classifier
        then m.increment "failure_count" none (some (category_value (classify e.cls)))
        else pure tt)
    throw e

  -- `RiskWorkflow.run`
  unfoldable pub run : S → Exec W S
  unfolding ◌>>=◌
  run state = do
    when_some metrics (λ m. do
      m.increment "request_count" (some (common state).tenant_id) none
      m.increment "workflow_execution_count" none none)
    request_start ← perf_counter node
    catch (look_up_or_execute store request_start state) on_failure
