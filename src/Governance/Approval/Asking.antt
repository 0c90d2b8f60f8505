-- ===== src/Governance/Approval/Asking.antt =====
-- What asking for an approval does, over a repository that keeps what is saved.
use ai_risk_engine.Exec.{ok, returned}
use ai_risk_engine.Governance.Audit.{AuditRecord, AuditLogger}
use ai_risk_engine.Governance.Approval.{
  pending, ApprovalRequest, ApprovalRepository, RequestArgs, request_approval,
}
use ai_risk_engine.Json.{str, field, end}
use ai_risk_engine.Prelude.{◌≡◌, refl, String, Option, none, some, List, if◌then◌else◌, ◌==◌}
use ai_risk_engine.Governance.Approval.Laws.{IsApprovalStore}

module _ {W : Type 0} (repo : ApprovalRepository W) (audit : AuditLogger W) where
  module _ {view : W → String → Option ApprovalRequest} {trail : W → List AuditRecord}
      (store : IsApprovalStore repo audit view trail) where
    -- Asking for an approval always succeeds; it stores a pending request under the id, whatever was
    -- stored there before, and leaves every other id alone.
    pub request_approval_lem :
        (a : RequestArgs) (w : W)
        → (r : ApprovalRequest) × ((request_approval repo audit a w).0 ≡ ok r)
          × (r.status ≡ pending)
          × (r.request_id ≡ a.request_id)
          × (r.decided_by ≡ none)
          × ((k : String)
              → view (request_approval repo audit a w).1 k
                ≡ (if a.request_id == k then some r else view w k))
    unfolding request_approval
    request_approval_lem a w =
        let w₁ = (audit.now w).1 in
        let r : ApprovalRequest = record {
          request_id = a.request_id;
          resource_type = a.resource_type;
          resource_id = a.resource_id;
          requested_by = a.requested_by;
          status = pending;
          created_at = (audit.now w).0;
          decided_by = none;
          decided_at = none;
          reason = a.reason;
        } in
        let w₂ = (repo.save r w₁).1 in
        let w₃ = (audit.now w₂).1 in
        let entry : AuditRecord = record {
          actor = a.requested_by;
          tenant_id = a.tenant_id;
          action = "approval_requested";
          resource_type = a.resource_type;
          resource_id = a.resource_id;
          reason = a.reason;
          correlation_id = a.correlation_id;
          metadata = some (field "request_id" (str a.request_id) end);
          timestamp_utc = (audit.now w₂).0;
        } in
        rw
          (
            returned (repo.save r w₁) (store.save_ok r w₁),
            returned (audit.save entry w₃) (store.is_trail.save_ok entry w₃),
          )
          (
            r,
            refl,
            refl,
            refl,
            refl,
            λ k.
                rw
                  (
                    store.audit_view entry w₃ k,
                    store.now_view w₂ k,
                    store.save_view r w₁ k,
                    store.now_view w k,
                  )
                  refl,
          )
