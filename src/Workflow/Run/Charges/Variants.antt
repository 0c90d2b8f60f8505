-- ===== src/Workflow/Run/Charges/Variants.antt =====
-- The nodes of `RiskWorkflow` and of `ComplianceWorkflow` change nothing but the audit log and the
-- clocks.
use ai_risk_engine.Exec.Keeps.{Keeps-bind, Keeps-pure}
use ai_risk_engine.Workflow.Compliance.{
  compliance_variant, retrieve_context_compliance, validate_policy_compliance,
  score_risk_compliance, apply_guardrails_compliance, make_compliance_decision,
}
use ai_risk_engine.Workflow.Nodes.{NodeServices}
use ai_risk_engine.Workflow.Nodes.Keeps.{
  NodeKeeps, Keeps-perf_counter, Keeps-finish_node, Keeps-retrieve_context, Keeps-validate_policy,
  Keeps-score_risk, Keeps-apply_guardrails, Keeps-make_decision,
}
use ai_risk_engine.Workflow.Risk.{risk_variant}
use ai_risk_engine.Workflow.Run.Keeps.{VariantKeeps}

module _ {W V : Type 0} {services : NodeServices W} {look : W → V}
    (h : NodeKeeps services look) where
  pub risk-VariantKeeps : VariantKeeps risk_variant services look
  risk-VariantKeeps = record {
    retrieval = Keeps-retrieve_context h;
    policy_validation = Keeps-validate_policy h;
    risk_scoring = Keeps-score_risk h;
    guardrails = Keeps-apply_guardrails h;
    decision = Keeps-make_decision h;
  }

  pub compliance-VariantKeeps : VariantKeeps compliance_variant services look
  unfolding retrieve_context_compliance validate_policy_compliance score_risk_compliance
      apply_guardrails_compliance make_compliance_decision
  compliance-VariantKeeps = record {
    retrieval = λ s. Keeps-bind (Keeps-retrieve_context h s.common) λ u. Keeps-pure _;
    policy_validation = λ s. Keeps-bind (Keeps-validate_policy h s.common) λ u. Keeps-pure _;
    risk_scoring = λ s. Keeps-bind (Keeps-score_risk h s.common) λ u. Keeps-pure _;
    guardrails = λ s. Keeps-bind (Keeps-apply_guardrails h s.common) λ u. Keeps-pure _;
    decision = λ s.
        Keeps-bind (Keeps-perf_counter h)
          λ start. Keeps-bind (Keeps-finish_node h _ _ _ _ start s.common) λ trail. Keeps-pure _;
  }
