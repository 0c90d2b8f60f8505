-- ===== src/Workflow/Services.antt =====
-- What `RiskWorkflow.__init__` and `ComplianceWorkflow.__init__` are given: the collaborators of
-- app/workflows/langgraph/risk_workflow.py and compliance_workflow.py, each a record of actions. An
-- optional one that is absent is `none`. The failure classifier has no state, so only its presence is
-- kept.
use ai_risk_engine.Exec.{Exec}
use ai_risk_engine.Governance.Models.{ModelRegistryRepository}
use ai_risk_engine.Governance.Prompts.{PromptRegistryRepository}
use ai_risk_engine.Json.{Fields}
use ai_risk_engine.Prelude.{ℕ, Bool, String, Option}
use ai_risk_engine.Prelude.Int.{ℤ}
use ai_risk_engine.Workflow.Nodes.{NodeServices}

-- The protocols `WorkflowStateStore` and `ComplianceStateStore`, with `S` the type of the states:
-- `get_risk_state` and `get_compliance_state`, `set_risk_state` and `set_compliance_state`.
pub record WorkflowStateStore (W S : Type 0) : Type 0 where
  pub get_state : String → Exec W (Option S)
  pub set_state : String → S → Exec W (Unit {0})

-- `increment` with its tenant or category label, `observe_latency` with its node label
pub record MetricsCollector (W : Type 0) : Type 0 where
  pub increment : String → Option String → Option String → Exec W (Unit {0})
  pub observe_latency : String → ℤ → Option String → Exec W (Unit {0})

pub record Span : Type 0 where
  pub span_id : String
  pub trace_id : String

-- The keyword arguments of `start_span`.
pub record SpanArgs : Type 0 where
  pub trace_id : Option String
  pub parent_span_id : Option String
  pub tenant_id : Option String
  pub correlation_id : Option String
  pub model_version : Option String
  pub prompt_version : Option ℕ

-- Entering and leaving `start_span`.
pub record TracingService (W : Type 0) : Type 0 where
  pub start_span : String → SpanArgs → Exec W Span
  pub end_span : Span → Exec W (Unit {0})

-- `add_cost` of tenant, amount, model version and request id
pub record CostTracker (W : Type 0) : Type 0 where
  pub add_cost : String → ℤ → String → String → Exec W (Unit {0})

-- The arguments of `log_generation`.
pub record Generation : Type 0 where
  pub event_id : String
  pub tenant_id : String
  pub prompt_version : ℕ
  pub model_version : String
  pub input_tokens : ℕ
  pub output_tokens : ℕ
  pub latency_ms : ℤ

pub record LangfuseClient (W : Type 0) : Type 0 where
  pub log_generation : Generation → Exec W (Unit {0})

-- The arguments of `evaluate_decision`; its result is taken as the dictionary of `to_dict`.
pub record DecisionFacts : Type 0 where
  pub tenant_id : String
  pub event_id : String
  pub correlation_id : String
  pub final_decision : String
  pub policy_result : String
  pub guardrail_result : String
  pub risk_score : Option ℤ

pub record EvaluationService (W : Type 0) : Type 0 where
  pub evaluate_decision : DecisionFacts → Exec W Fields

pub record Services (W S : Type 0) : Type 0 where
  pub node : NodeServices W
  pub store : Option (WorkflowStateStore W S)
  pub models : Option (ModelRegistryRepository W)
  pub prompts : Option (PromptRegistryRepository W)
  pub metrics : Option (MetricsCollector W)
  pub tracing : Option (TracingService W)
  pub cost : Option (CostTracker W)
  pub has_failure_classifier : Bool
  pub langfuse : Option (LangfuseClient W)
  pub evaluation : Option (EvaluationService W)
