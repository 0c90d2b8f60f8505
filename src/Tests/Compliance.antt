-- ===== src/Tests/Compliance.antt =====
-- Witnesses for the theorems on app/workflows/langgraph/compliance_workflow.py.
use ai_risk_engine.Exec.{Result, ok, err, pure, lift, catch, finally, when_some, ◌>>=◌}
use ai_risk_engine.Governance.Audit.{utc_now, log_action}
use ai_risk_engine.Json.{str, end, field, get, get_or, truthy, equals_text}
use ai_risk_engine.Prelude.{◌≡◌, refl, false, none, [], ◌∷◌}
use ai_risk_engine.Tests.World.{World, empty_world, compliance_states, find_state}
use ai_risk_engine.Workflow.Compliance
use ai_risk_engine.Workflow.Compliance.Outcome as ComplianceOutcome
use ai_risk_engine.Workflow.Compliance.Outcome.{compliance_decides, compliance_completes}
use ai_risk_engine.Workflow.Nodes.{
  metadata_of, policy_of, score_of, guardrail_of, is_over_threshold, is_text, perf_counter,
  finish_node, retrieve_context, validate_policy, score_risk, apply_guardrails,
}
use ai_risk_engine.Workflow.Run
use ai_risk_engine.Workflow.Versions
use ai_risk_engine.Workflow.Run.{report, evaluate}
use ai_risk_engine.Workflow.Sequence.{
  run_traced, with_span, traced, run_node, run_unless_done, run_all_nodes,
}
use ai_risk_engine.Workflow.Versions.{model_version_of, prompt_version_of}
use ai_risk_engine.Workflow.Run.Outcome.{Misses, Stores}
use ai_risk_engine.Workflow.Run.Specs.{Behaves}
use ai_risk_engine.Workflow.Services.{Services}
use ai_risk_engine.Workflow.State.{trail_has, node_done}
use ai_risk_engine.Tests.Workflow.{new_state, services_with, Anything, metadata_well}

abbrev flagged : Compliance.ComplianceState
flagged = record { common = new_state; regulatory_flags = "gdpr" ∷ []; approval_required = false }

abbrev compliance_state_of : Result Compliance.ComplianceState → Compliance.ComplianceState
compliance_state_of (ok u) = u
compliance_state_of (err e) = flagged

abbrev compliance_services : Services World Compliance.ComplianceState
compliance_services = services_with compliance_states

abbrev compliance_run : Result Compliance.ComplianceState × World
compliance_run = Compliance.execute compliance_services 0 flagged empty_world

compliance_run_ok :
    Compliance.execute compliance_services 0 flagged empty_world
    ≡ (ok (compliance_state_of compliance_run.0), compliance_run.1)
unfolding Run.execute Versions.resolve_versions model_version_of prompt_version_of run_traced
    with_span traced run_node run_unless_done run_all_nodes report evaluate pure lift catch finally
    when_some ◌>>=◌ utc_now log_action metadata_of policy_of score_of guardrail_of is_over_threshold
    is_text perf_counter finish_node retrieve_context validate_policy score_risk apply_guardrails
    get get_or truthy equals_text trail_has node_done Compliance.retrieve_context_compliance
    Compliance.validate_policy_compliance Compliance.score_risk_compliance
    Compliance.apply_guardrails_compliance Compliance.make_compliance_decision
    Compliance.approval_required_of Compliance.has_regulatory_flags Compliance.counts_as_approval
compliance_run_ok = refl

compliance_decides_example :
    ComplianceOutcome.IsDecided flagged (compliance_state_of compliance_run.0)
compliance_decides_example =
    compliance_decides compliance_services 0 flagged empty_world compliance_run.1
      (compliance_state_of compliance_run.0) refl compliance_run_ok

-- Nothing is stored for the event in the compliance store.
abbrev IsUnchecked : World → Type 0
IsUnchecked w = find_state w.compliance_states "e1" ≡ none

compliance_never_raises :
    Behaves Compliance.compliance_variant compliance_services IsUnchecked (λ _ _. ⊥)
compliance_never_raises = record {
  node = record {
    perf_keeps = λ w p. p;
    now_keeps = λ w p. p;
    audit_keeps = λ r. record { at = λ w p. p };
  };
  models = tt;
  prompts = tt;
  governance = λ s e. record { at = λ w never. absurd never };
  metrics = ((λ n t c. record { at = λ w p. p }), (λ n x l. record { at = λ w p. p }));
  tracing = (
    (λ n a. record { at = λ w p. p }),
    (λ s. record { at = λ w p. p }),
    (λ s e. record { at = λ w never. absurd never }),
  );
  costs = tt;
  generations = tt;
  evaluations = tt;
}

compliance-Stores : Stores Compliance.compliance_shape compliance_services IsUnchecked Anything
unfolding when_some
compliance-Stores u = record { at = λ w p. tt }

compliance-Misses : Misses Compliance.compliance_shape IsUnchecked flagged compliance_states
compliance-Misses = record { at = λ w p. (p, p) }

compliance_completes_example :
    (out : Compliance.ComplianceState) × (w' : World) × (Compliance.run compliance_services flagged
        empty_world
      ≡ (ok out, w'))
    × Anything w'
    × ComplianceOutcome.IsDecided flagged out
compliance_completes_example =
    compliance_completes compliance_never_raises compliance-Stores flagged refl
      (field "category" (str "sensitive") end) metadata_well empty_world refl compliance-Misses
