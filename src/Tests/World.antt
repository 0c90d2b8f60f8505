-- ===== src/Tests/World.antt =====
-- Concrete collaborators, in memory, for the witnesses: lists of what was saved, the newest first,
-- and a clock that counts.
use ai_risk_engine.Exec.{ok}
use ai_risk_engine.Governance.Audit.{AuditRecord, AuditLogger, IsTrail}
use ai_risk_engine.Governance.Approval.{ApprovalRequest, ApprovalRepository}
use ai_risk_engine.Governance.Approval.Laws.{IsApprovalStore}
use ai_risk_engine.Governance.Models.{ModelRecord, ModelRegistryRepository}
use ai_risk_engine.Governance.Models.Laws.{IsModelStore}
use ai_risk_engine.Prelude.{
  ℕ, ◌+◌, refl, ◌&&◌, String, Option, none, some, List, [], ◌∷◌, ◌++◌, if◌then◌else◌, ◌==◌,
}
use ai_risk_engine.Prelude.Int.{pos}
use ai_risk_engine.Workflow.Compliance.{ComplianceState}
use ai_risk_engine.Workflow.Nodes.{NodeServices}
use ai_risk_engine.Workflow.Services.{MetricsCollector, WorkflowStateStore, TracingService}
use ai_risk_engine.Workflow.State.{RiskState}

pub record Entry (S : Type 0) : Type 0 where
  pub key : String
  pub value : S

pub record World : Type 0 where
  pub requests : List ApprovalRequest
  pub models : List ModelRecord
  pub trail : List AuditRecord
  pub states : List (Entry RiskState)
  pub compliance_states : List (Entry ComplianceState)
  pub counters : List String
  pub clock : ℕ

abbrev pub empty_world : World
empty_world = record {
  requests = [];
  models = [];
  trail = [];
  states = [];
  compliance_states = [];
  counters = [];
  clock = 0;
}

abbrev find_request : List ApprovalRequest → String → Option ApprovalRequest
find_request [] k = none
find_request (r ∷ rs) k = if r.request_id == k then some r else find_request rs k

abbrev find_model : List ModelRecord → String → String → Option ModelRecord
find_model [] n v = none
find_model (m ∷ ms) n v =
    if (m.model_name == n) && (m.version == v) then some m else find_model ms n v

abbrev find_latest : List ModelRecord → String → Option ModelRecord
find_latest [] n = none
find_latest (m ∷ ms) n = if m.model_name == n then some m else find_latest ms n

abbrev pub find_state : {S : Type 0} → List (Entry S) → String → Option S
find_state [] k = none
find_state (e ∷ es) k = if e.key == k then some e.value else find_state es k

abbrev pub audit : AuditLogger World
audit = record {
  now = λ w. ("2026-01-01T00:00:00+00:00", w);
  save = λ r w. (ok tt, record w { trail = w.trail ++ r ∷ [] });
}

abbrev pub trail_of : World → List AuditRecord
trail_of w = w.trail

pub audit-IsTrail : IsTrail audit trail_of
audit-IsTrail = record { now_keeps = λ w. refl; save_ok = λ r w. refl; save_adds = λ r w. refl }

abbrev pub approvals : ApprovalRepository World
approvals = record {
  save = λ r w. (ok tt, record w { requests = r ∷ w.requests });
  get = λ k w. (ok (find_request w.requests k), w);
}

abbrev pub request_view : World → String → Option ApprovalRequest
request_view w = find_request w.requests

pub approvals-IsApprovalStore : IsApprovalStore approvals audit request_view trail_of
approvals-IsApprovalStore = record {
  is_trail = audit-IsTrail;
  get_reads = λ k w. refl;
  save_ok = λ r w. refl;
  save_view = λ r w k. refl;
  save_trail = λ r w. refl;
  now_view = λ w k. refl;
  audit_view = λ r w k. refl;
}

abbrev pub registry : ModelRegistryRepository World
registry = record {
  save = λ m w. (ok tt, record w { models = m ∷ w.models });
  get = λ n v w. (ok (find_model w.models n v), w);
  get_latest = λ n w. (ok (find_latest w.models n), w);
}

abbrev pub model_view : World → String → String → Option ModelRecord
model_view w = find_model w.models

pub registry-IsModelStore : IsModelStore registry audit model_view trail_of
registry-IsModelStore = record {
  is_trail = audit-IsTrail;
  get_reads = λ n v w. refl;
  save_ok = λ m w. refl;
  save_view = λ m w n v. refl;
  save_trail = λ m w. refl;
  now_view = λ w n v. refl;
  audit_view = λ r w n v. refl;
}

abbrev pub states : WorkflowStateStore World RiskState
states = record {
  get_state = λ k w. (ok (find_state w.states k), w);
  set_state = λ k s w. (ok tt, record w { states = record { key = k; value = s } ∷ w.states });
}

abbrev pub compliance_states : WorkflowStateStore World ComplianceState
compliance_states = record {
  get_state = λ k w. (ok (find_state w.compliance_states k), w);
  set_state = λ k s w.
      (ok tt, record w { compliance_states = record { key = k; value = s } ∷ w.compliance_states });
}

abbrev pub counters : MetricsCollector World
counters = record {
  increment = λ n t c w. (ok tt, record w { counters = n ∷ w.counters });
  observe_latency = λ n x l w. (ok tt, w);
}

abbrev pub spans : TracingService World
spans = record {
  start_span = λ n a w. (ok (record { span_id = n; trace_id = "trace" }), w);
  end_span = λ s w. (ok tt, record w { counters = s.span_id ∷ w.counters });
}

abbrev pub node_services : NodeServices World
node_services = record {
  audit = audit;
  perf = λ w. (w.clock, record w { clock = w.clock + 1 });
  elapsed_ms = λ start end_time. pos 1;
  latency_ms = λ start end_time. pos 1;
  str_of = λ v. "text";
}
