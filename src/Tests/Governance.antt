-- ===== src/Tests/Governance.antt =====
-- Witnesses for the theorems on app/governance and app/security.
use ai_risk_engine.Exec.{err}
use ai_risk_engine.Governance.Approval.{
  ApprovalRequest, RequestArgs, DecisionArgs, ApprovalStatus, pending, approved, rejected, approve,
  reject,
}
use ai_risk_engine.Governance.Approval.Laws.{
  decide_unauthorized, approve-reject_pending, approve-reject_settled, Decides, Refuses,
}
use ai_risk_engine.Governance.Approval.Decided.{
  Call, asking, approving, rejecting, perform_all, decided_forever,
}
use ai_risk_engine.Prelude.{◌≡◌, ◌≢◌, refl, inl, String, none, some, List, [], ◌∷◌, arith, eq_iff}
use ai_risk_engine.Security.Rbac.{Role, admin, approver, viewer, denied, May}
use ai_risk_engine.Tests.World.{
  World, empty_world, audit, approvals, request_view, approvals-IsApprovalStore,
}

abbrev by_role : Role → DecisionArgs
by_role r = record {
  request_id = "r1";
  decider_role = r;
  decider_id = "alice";
  tenant_id = "t1";
  correlation_id = "c1";
  reason = none;
}

abbrev asked : ApprovalStatus → ApprovalRequest
asked s = record {
  request_id = "r1";
  resource_type = "model";
  resource_id = "m1";
  requested_by = "bob";
  status = s;
  created_at = "2026-01-01";
  decided_by = none;
  decided_at = none;
  reason = none;
}

abbrev with_request : ApprovalStatus → World
with_request s = record empty_world { requests = asked s ∷ [] }

abbrev again : RequestArgs
again = record {
  request_id = "r1";
  resource_type = "model";
  resource_id = "m1";
  requested_by = "bob";
  tenant_id = "t1";
  correlation_id = "c2";
  reason = none;
}

abbrev elsewhere : RequestArgs
elsewhere = record again { request_id = "r2" }

viewer-May_not : ¬ May viewer "approve"
viewer-May_not h = ground (arith, eq_iff "approve" "view")

decide_unauthorized_example :
    (approve approvals audit (by_role viewer) (with_request pending)
      ≡ (err (denied viewer "approve"), with_request pending))
    × (reject approvals audit (by_role viewer) (with_request pending)
        ≡ (err (denied viewer "approve"), with_request pending))
decide_unauthorized_example =
    decide_unauthorized approvals audit (by_role viewer) (with_request pending) viewer-May_not

approve-reject_pending_example :
    Decides approvals audit approvals-IsApprovalStore approved "approval_approved"
      (by_role approver)
      (with_request pending)
      (asked pending)
      (approve approvals audit (by_role approver) (with_request pending))
    × Decides approvals audit approvals-IsApprovalStore rejected "approval_rejected"
        (by_role approver)
        (with_request pending)
        (asked pending)
        (reject approvals audit (by_role approver) (with_request pending))
approve-reject_pending_example =
    approve-reject_pending approvals audit approvals-IsApprovalStore (by_role approver)
      (with_request pending) (asked pending) (inl refl) refl refl

only_rejected :
    (r : ApprovalRequest) → request_view (with_request rejected) "r1" ≡ some r → r.status ≢ pending
only_rejected r h = ground (arith, h)

approve-reject_settled_example :
    Refuses approvals audit approvals-IsApprovalStore
      (with_request rejected)
      (approve approvals audit (by_role approver) (with_request rejected))
    × Refuses approvals audit approvals-IsApprovalStore
        (with_request rejected)
        (reject approvals audit (by_role approver) (with_request rejected))
approve-reject_settled_example =
    approve-reject_settled approvals audit approvals-IsApprovalStore (by_role approver)
      (with_request rejected) (inl refl) only_rejected

abbrev history : List Call
history = approving (by_role approver) ∷ asking elsewhere ∷ rejecting (by_role admin) ∷ []

with_request-IsKeyed :
    (k : String) (r : ApprovalRequest)
    → request_view (with_request approved) k ≡ some r
    → r.request_id ≡ k
with_request-IsKeyed k r h = ground (arith, h, eq_iff "r1" k)

decided_forever_example :
    request_view (perform_all approvals audit history (with_request approved)) "r1"
    ≡ some (asked approved)
decided_forever_example =
    decided_forever approvals audit approvals-IsApprovalStore history (with_request approved) "r1"
      (asked approved) (tt, ((λ h. ground (arith, eq_iff "r2" "r1")), (tt, tt)))
      with_request-IsKeyed refl (λ h. ground (arith, h))
