-- ===== src/Workflow/Variant.antt =====
-- What `RiskWorkflow` of app/workflows/langgraph/risk_workflow.py and `ComplianceWorkflow` of
-- app/workflows/langgraph/compliance_workflow.py differ in.
use ai_risk_engine.Exec.{Exec}
use ai_risk_engine.Prelude.{Bool, String}
use ai_risk_engine.Workflow.Nodes.{NodeServices}
use ai_risk_engine.Workflow.State.{RiskState}

-- A state, of which `common` is the fields that the two workflows share and `with_common` is a
-- `transition` of those.
pub record Shape (S : Type 0) : Type 0 where
  pub common : S → RiskState
  pub with_common : S → RiskState → S

-- What the two workflows differ in: the state, the node functions, the test before
-- `approval_required_count`, and the names.
pub record Variant (W S : Type 0) : Type 0 where
  pub shape : Shape S
  pub retrieval : NodeServices W → S → Exec W S
  pub policy_validation : NodeServices W → S → Exec W S
  pub risk_scoring : NodeServices W → S → Exec W S
  pub guardrails : NodeServices W → S → Exec W S
  pub decision : NodeServices W → S → Exec W S
  pub needs_approval : S → Bool
  pub workflow_name : String
  pub model_name : String
  pub prompt_name : String
