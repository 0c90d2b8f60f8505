-- ===== src/Workflow/Compliance/Decision.antt =====
-- The decision of the compliance workflow next to that of the risk workflow.
use ai_risk_engine.Exec.{ok}
use ai_risk_engine.Exec.Triple.{Triple, Triple-pure, Triple-bind, Triple-any, Triple-ok}
use ai_risk_engine.Prelude.{◌≡◌, refl, ◌↔◌, true, some, if◌then◌else◌, arith, eq_iff}
use ai_risk_engine.Workflow.Compliance.{
  ComplianceState, has_regulatory_flags, approval_required_of, final_decision_of,
  make_compliance_decision,
}
use ai_risk_engine.Workflow.Nodes.{
  NodeServices, decision_of, make_decision, perf_counter, finish_node,
}
use ai_risk_engine.Workflow.State.{RiskState}

module _ {W : Type 0} (services : NodeServices W) where
  Triple-make_compliance_decision :
      (s : ComplianceState)
      → Triple
          (λ _. Unit)
          (make_compliance_decision services s)
          (λ u _.
            (u.approval_required ≡ approval_required_of s)
            × (u.common.final_decision ≡ some (final_decision_of (approval_required_of s))))
          (λ _ _. Unit)
  unfolding make_compliance_decision
  Triple-make_compliance_decision s = Triple-bind (Triple-any (perf_counter services)) λ start.
      Triple-bind (Triple-any (finish_node services _ _ _ _ start s.common))
        λ trail. Triple-pure _ (λ w p. (refl, refl))

  Triple-make_decision_any :
      (s : RiskState)
      → Triple
          (λ _. Unit)
          (make_decision services s)
          (λ u _.
            u.final_decision ≡ some (decision_of s.policy_result s.risk_score s.guardrail_result))
          (λ _ _. Unit)
  unfolding make_decision
  Triple-make_decision_any s = Triple-bind (Triple-any (perf_counter services)) λ start.
      Triple-bind (Triple-any (finish_node services _ _ _ _ start s))
        λ trail. Triple-pure _ (λ w p. refl)

  -- On the same state the compliance decision is the risk decision as long as there are no regulatory
  -- flags, and with flags it requires approval; `approval_required` is set exactly if it does.
  pub make_compliance_decision-vs-make_decision :
      (s u : ComplianceState) (v : RiskState) (w w₁ w₂ : W)
      → make_compliance_decision services s w ≡ (ok u, w₁)
      → make_decision services s.common w ≡ (ok v, w₂)
      → (u.common.final_decision ≡ (
          if has_regulatory_flags s.regulatory_flags
          then some "REQUIRE_APPROVAL"
          else v.final_decision))
        × ((u.approval_required ≡ true) ↔ (u.common.final_decision ≡ some "REQUIRE_APPROVAL"))
  unfolding decision_of approval_required_of
  make_compliance_decision-vs-make_decision s u v w w₁ w₂ h k =
      let (required, decided) = Triple-ok (Triple-make_compliance_decision s) w w₁ u tt h in
      let risk_decided = Triple-ok (Triple-make_decision_any s.common) w w₂ v tt k in
      (
        rw (decided, risk_decided) (ground arith),
        rw (decided, required) (ground (arith, eq_iff "APPROVED" "REQUIRE_APPROVAL")),
      )
