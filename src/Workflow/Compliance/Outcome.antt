-- ===== src/Workflow/Compliance/Outcome.antt =====
-- What a caller of the compliance workflow gets.
use ai_risk_engine.Errors.{Error}
use ai_risk_engine.Exec.{Exec, ok}
use ai_risk_engine.Exec.Triple.{Triple, Triple-pure, Triple-bind, IfSome}
use ai_risk_engine.Json.{Fields}
use ai_risk_engine.Prelude.{ℕ, ◌≡◌, refl, ◌∙◌, some, [], if◌then◌else◌, arith}
use ai_risk_engine.Workflow.Compliance.{
  ComplianceState, has_regulatory_flags, approval_required_of, final_decision_of,
  retrieve_context_compliance, validate_policy_compliance, score_risk_compliance,
  apply_guardrails_compliance, make_compliance_decision, on_common, compliance_shape,
  compliance_variant, execute, run,
}
use ai_risk_engine.Workflow.Nodes.{NodeServices, metadata_of, decision_of}
use ai_risk_engine.Workflow.Nodes.Specs.{NodeBehaves, Triple-perf_counter, Triple-finish_node}
use ai_risk_engine.Workflow.Run.Contract.{Reading, NodesAct, OnCommon, DecidedFrom}
use ai_risk_engine.Workflow.Run.Correct as Correct
use ai_risk_engine.Workflow.Run.Outcome as Outcome
use ai_risk_engine.Workflow.Run.Outcome.{Misses, Stores}
use ai_risk_engine.Workflow.Run.Specs.{Behaves}
use ai_risk_engine.Workflow.Services.{Services}
use ai_risk_engine.Workflow.State.{RiskState}

-- `approval_required` says whether the final decision is to require approval.
abbrev pub ApprovalAgrees : ComplianceState → Type 0
ApprovalAgrees s = s.common.final_decision ≡ some (final_decision_of s.approval_required)

-- A compliance state escalates if it has regulatory flags.
abbrev compliance_reading : Reading compliance_shape
compliance_reading = record {
  escalates = λ s. has_regulatory_flags s.regulatory_flags;
  Agrees = ApprovalAgrees;
  common-with_common = λ s r. refl;
  escalates-with_common = λ s r. refl;
  Agrees-with_common = λ s r same agrees. same ∙ agrees;
}

-- The compliance test is the risk test, and the flags.
approval_required_of-flags :
    (s : ComplianceState)
    → final_decision_of (approval_required_of s) ≡ (
        if has_regulatory_flags s.regulatory_flags
        then "REQUIRE_APPROVAL"
        else decision_of s.common.policy_result s.common.risk_score s.common.guardrail_result)
unfolding decision_of approval_required_of
approval_required_of-flags s = ground arith

module _ {W : Type 0} (services : NodeServices W) where
  Triple-on_common :
      (f : RiskState → Exec W RiskState) → OnCommon compliance_reading (on_common services f) f
  Triple-on_common f P F E v t = Triple-bind t λ r. Triple-pure _ (λ w q. (q.0, (q.1, refl)))

  Triple-make_compliance_decision :
      {P : W → Type 0} {E : Error → W → Type 0} (v : ComplianceState)
      → NodeBehaves services P E
      → Triple P
          (make_compliance_decision services v)
          (λ u w. P w × DecidedFrom compliance_reading v u)
          E
  unfolding make_compliance_decision
  Triple-make_compliance_decision v behaves = Triple-bind (Triple-perf_counter behaves) λ start.
      Triple-bind (Triple-finish_node behaves _ _ _ _ _ _) λ trail. Triple-pure _ (λ w p. (
        p.0,
        record {
          trail = trail;
          logged = p.1;
          decided = rw (approval_required_of-flags v) refl;
          same = refl;
          agrees = refl;
        },
      ))

  pub compliance-NodesAct : NodesAct compliance_variant compliance_reading services
  unfolding retrieve_context_compliance validate_policy_compliance score_risk_compliance
      apply_guardrails_compliance
  compliance-NodesAct = record {
    retrieval = Triple-on_common _;
    policy_validation = Triple-on_common _;
    risk_scoring = Triple-on_common _;
    guardrails = Triple-on_common _;
    decision = λ P E v behaves. Triple-make_compliance_decision v behaves;
  }

-- `u` is the event of `s` decided: see `IsDecided` of Workflow/Run/Correct.
abbrev pub IsDecided : ComplianceState → ComplianceState → Type 0
IsDecided s u = Correct.IsDecided compliance_reading s u

-- The result of the compliance workflow on an event that no node has seen, whatever its
-- collaborators do or raise: if the run returns a state, then it is for the same event, the five
-- nodes ran once each and in order, the score lies from 0 to 100, the decision is to require approval
-- exactly if there are regulatory flags, the policy is overridden, the category is sensitive, a
-- blocked pattern is reported or the event is high risk, else to approve, and `approval_required`
-- says which.
pub compliance_decides :
    {W : Type 0} (services : Services W ComplianceState) (start : ℕ) (s : ComplianceState)
    (w w' : W) (out : ComplianceState)
    → s.common.audit_trail ≡ []
    → execute services start s w ≡ (ok out, w')
    → IsDecided s out
compliance_decides services = Outcome.execute-IsDecided services (compliance-NodesAct services.node)

-- A new event is always decided by the compliance workflow: if the metadata are a dictionary (or
-- absent), the store has nothing for the event, the collaborators neither raise in a world in which
-- `P` holds nor end `P`, and storing a state leads from `P` to `Q` without a raise, then the workflow
-- returns a state from every world in which `P` holds, that state is decided, and `Q` holds after it.
pub compliance_completes :
    {W : Type 0} {services : Services W ComplianceState} {P Q : W → Type 0}
    (behaves : Behaves compliance_variant services P (λ _ _. ⊥))
    (stores : Stores compliance_shape services P Q) (s : ComplianceState)
    (fresh : s.common.audit_trail ≡ []) (m : Fields) (well : metadata_of s.common.raw_event ≡ ok m)
    (w : W)
    → P w
    → IfSome (Misses compliance_shape P s) services.store
    → (out : ComplianceState) × (w' : W) × (run services s w ≡ (ok out, w'))
      × Q w'
      × IsDecided s out
compliance_completes {services} = Outcome.completes_if_kept (compliance-NodesAct services.node)
