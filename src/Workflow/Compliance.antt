-- ===== src/Workflow/Compliance.antt =====
-- `ComplianceState` of app/workflows/langgraph/state_models.py, the nodes of
-- app/workflows/langgraph/nodes/compliance_nodes.py, and `ComplianceWorkflow` of
-- app/workflows/langgraph/compliance_workflow.py, which is the variant of Workflow/Run on them. The
-- fields that the state shares with `RiskState` are kept in one, on which the first four nodes do
-- what the risk nodes do: the same tests, trail entries and audit records.
pub mod Decision
pub mod Outcome
use ai_risk_engine.Exec.{Exec, pure, ◌>>=◌}
use ai_risk_engine.Json.{bool, str, end, field}
use ai_risk_engine.Prelude.{
  ℕ, Bool, true, false, ◌||◌, String, Option, none, some, List, [], ◌∷◌, if◌then◌else◌,
}
use ai_risk_engine.Workflow.Nodes.{
  NodeServices, perf_counter, finish_node, is_text, is_over_threshold, retrieve_context,
  validate_policy, score_risk, apply_guardrails,
}
use ai_risk_engine.Workflow.Run
use ai_risk_engine.Workflow.Versions
use ai_risk_engine.Workflow.Variant.{Shape, Variant}
use ai_risk_engine.Workflow.Services.{Services, WorkflowStateStore}
use ai_risk_engine.Workflow.State.{RiskState}

pub record ComplianceState : Type 0 where
  pub common : RiskState
  pub regulatory_flags : List String
  pub approval_required : Bool

-- `len(state.regulatory_flags or []) > 0`
unfoldable pub has_regulatory_flags : List String → Bool
has_regulatory_flags [] = false
has_regulatory_flags (f ∷ fs) = true

-- The test of `make_compliance_decision`.
unfoldable pub approval_required_of : ComplianceState → Bool
unfolding is_text is_over_threshold has_regulatory_flags
approval_required_of s =
    is_text s.common.policy_result "FAIL"
    || is_over_threshold s.common.risk_score
    || is_text s.common.guardrail_result "VIOLATION"
    || has_regulatory_flags s.regulatory_flags

abbrev final_decision_of : Bool → String
final_decision_of required = if required then "REQUIRE_APPROVAL" else "APPROVED"

module _ {W : Type 0} (services : NodeServices W) where
  abbrev pub on_common : (RiskState → Exec W RiskState) → ComplianceState → Exec W ComplianceState
  on_common node state = do u ← node state.common; pure (record state { common = u })

  unfoldable pub retrieve_context_compliance : ComplianceState → Exec W ComplianceState
  unfolding pure ◌>>=◌
  retrieve_context_compliance = on_common (retrieve_context services)

  unfoldable pub validate_policy_compliance : ComplianceState → Exec W ComplianceState
  unfolding pure ◌>>=◌
  validate_policy_compliance = on_common (validate_policy services)

  unfoldable pub score_risk_compliance : ComplianceState → Exec W ComplianceState
  unfolding pure ◌>>=◌
  score_risk_compliance = on_common (score_risk services)

  unfoldable pub apply_guardrails_compliance : ComplianceState → Exec W ComplianceState
  unfolding pure ◌>>=◌
  apply_guardrails_compliance = on_common (apply_guardrails services)

  unfoldable pub make_compliance_decision : ComplianceState → Exec W ComplianceState
  unfolding pure ◌>>=◌
  make_compliance_decision state = do
    start ← perf_counter services
    let required = approval_required_of state
    new_trail ←
        finish_node services "decision" "decision_made" "compliance_decision"
          (field "final_decision" (str (final_decision_of required))
            (field "approval_required" (bool required) end))
          start state.common
    pure (record state {
      common = record state.common {
        final_decision = some (final_decision_of required);
        audit_trail = new_trail;
      };
      approval_required = required;
    })

abbrev pub compliance_shape : Shape ComplianceState
compliance_shape = record {
  common = λ state. state.common;
  with_common = λ state updated. record state { common = updated };
}

-- `current.approval_required or current.final_decision == "REQUIRE_APPROVAL"`
unfoldable pub counts_as_approval : ComplianceState → Bool
unfolding is_text
counts_as_approval state =
    state.approval_required || is_text state.common.final_decision "REQUIRE_APPROVAL"

abbrev pub compliance_variant : {W : Type 0} → Variant W ComplianceState
compliance_variant = record {
  shape = compliance_shape;
  retrieval = retrieve_context_compliance;
  policy_validation = validate_policy_compliance;
  risk_scoring = score_risk_compliance;
  guardrails = apply_guardrails_compliance;
  decision = make_compliance_decision;
  needs_approval = counts_as_approval;
  workflow_name = "compliance_workflow";
  model_name = "compliance-model";
  prompt_name = "compliance-prompt";
}

module _ {W : Type 0} (services : Services W ComplianceState) where
  -- `_resolve_versions`
  abbrev pub resolve_versions : ComplianceState → Exec W ComplianceState
  resolve_versions = Versions.resolve_versions compliance_variant services

  -- The body of the `try`, when nothing is cached.
  abbrev pub execute : ℕ → ComplianceState → Exec W ComplianceState
  execute = Run.execute compliance_variant services

  -- The body of the `try`.
  abbrev pub look_up_or_execute :
      Option (WorkflowStateStore W ComplianceState) → ℕ → ComplianceState → Exec W ComplianceState
  look_up_or_execute = Run.look_up_or_execute compliance_variant services

  -- `ComplianceWorkflow.run`
  abbrev pub run : ComplianceState → Exec W ComplianceState
  run = Run.run compliance_variant services
