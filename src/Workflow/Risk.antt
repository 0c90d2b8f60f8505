-- ===== src/Workflow/Risk.antt =====
-- `RiskWorkflow` of app/workflows/langgraph/risk_workflow.py: the variant of Workflow/Run on
-- `RiskState` and with the nodes of app/workflows/langgraph/nodes.
pub mod Outcome
use ai_risk_engine.Exec.{Exec}
use ai_risk_engine.Prelude.{ℕ, Option}
use ai_risk_engine.Workflow.Nodes.{
  is_text, retrieve_context, validate_policy, score_risk, apply_guardrails, make_decision,
}
use ai_risk_engine.Workflow.Run
use ai_risk_engine.Workflow.Variant.{Shape, Variant}
use ai_risk_engine.Workflow.Services.{Services, WorkflowStateStore}
use ai_risk_engine.Workflow.State.{RiskState}

abbrev pub risk_shape : Shape RiskState
risk_shape = record { common = λ state. state; with_common = λ state updated. updated }

abbrev pub risk_variant : {W : Type 0} → Variant W RiskState
risk_variant = record {
  shape = risk_shape;
  retrieval = retrieve_context;
  policy_validation = validate_policy;
  risk_scoring = score_risk;
  guardrails = apply_guardrails;
  decision = make_decision;
  needs_approval = λ state. is_text state.final_decision "REQUIRE_APPROVAL";
  workflow_name = "risk_workflow";
  model_name = "risk-model";
  prompt_name = "risk-prompt";
}

module _ {W : Type 0} (services : Services W RiskState) where
  abbrev pub execute : ℕ → RiskState → Exec W RiskState
  execute = Run.execute risk_variant services

  abbrev pub look_up_or_execute :
      Option (WorkflowStateStore W RiskState) → ℕ → RiskState → Exec W RiskState
  look_up_or_execute = Run.look_up_or_execute risk_variant services

  -- `RiskWorkflow.run`
  abbrev pub run : RiskState → Exec W RiskState
  run = Run.run risk_variant services
