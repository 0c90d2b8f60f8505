-- ===== src/Workflow/Run/Contract.antt =====
-- What the theorems on `run` ask of a variant, that is of its state and of its nodes.
use ai_risk_engine.Errors.{Error}
use ai_risk_engine.Exec.{Exec}
use ai_risk_engine.Exec.Triple.{Triple}
use ai_risk_engine.Json.{Fields}
use ai_risk_engine.Prelude.{◌≡◌, Bool, List, some, if◌then◌else◌}
use ai_risk_engine.Workflow.Nodes.{
  NodeServices, decision_of, retrieve_context, validate_policy, score_risk, apply_guardrails,
}
use ai_risk_engine.Workflow.Nodes.Specs.{NodeBehaves, Logged}
use ai_risk_engine.Workflow.Variant.{Shape, Variant}
use ai_risk_engine.Workflow.State.{RiskState}

-- How to read a state: `escalates` says that the decision is left to a person whatever the scores
-- are, and `Agrees` that the fields that are not common agree with the final decision.
pub record Reading {S : Type 0} (shape : Shape S) : Type 1 where
  pub escalates : S → Bool
  pub Agrees : S → Type 0
  pub common-with_common : (s : S) (r : RiskState) → shape.common (shape.with_common s r) ≡ r
  pub escalates-with_common :
      (s : S) (r : RiskState) → escalates (shape.with_common s r) ≡ escalates s
  pub Agrees-with_common :
      (s : S) (r : RiskState)
      → r.final_decision ≡ (shape.common s).final_decision
      → Agrees s
      → Agrees (shape.with_common s r)

module _ {S : Type 0} {shape : Shape S} (reading : Reading shape) where
  open shape use {common}
  open reading use {escalates, Agrees}

  -- The state `v` with the final decision in it.
  pub record DecidedFrom (v u : S) : Type 0 where
    pub trail : List Fields
    pub logged : Logged "decision" (common v).audit_trail trail
    pub decided : common u ≡ record (common v) {
      final_decision = some (
          if escalates v
          then "REQUIRE_APPROVAL"
          else decision_of
              (common v).policy_result
              (common v).risk_score
              (common v).guardrail_result);
      audit_trail = trail;
    }
    pub same : escalates u ≡ escalates v
    pub agrees : Agrees u

  -- The node `f` of the variant does to the common fields what `g` does, and no more.
  abbrev pub OnCommon : {W : Type 0} → (S → Exec W S) → (RiskState → Exec W RiskState) → Type 1
  OnCommon {W} f g =
      (P : W → Type 0) (F : RiskState → Type 0) (E : Error → W → Type 0) (v : S)
      → Triple P (g (common v)) (λ r w. P w × F r) E
      → Triple P (f v) (λ u w. P w × (F (common u) × (escalates u ≡ escalates v))) E

module _ {W S : Type 0} (variant : Variant W S) (reading : Reading variant.shape) where
  -- The nodes of the variant.
  pub record NodesAct (services : NodeServices W) : Type 1 where
    pub retrieval : OnCommon reading (variant.retrieval services) (retrieve_context services)
    pub policy_validation :
        OnCommon reading (variant.policy_validation services) (validate_policy services)
    pub risk_scoring : OnCommon reading (variant.risk_scoring services) (score_risk services)
    pub guardrails : OnCommon reading (variant.guardrails services) (apply_guardrails services)
    pub decision :
        (P : W → Type 0) (E : Error → W → Type 0) (v : S)
        → NodeBehaves services P E
        → Triple P (variant.decision services v) (λ u w. P w × DecidedFrom reading v u) E
