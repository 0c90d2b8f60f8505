-- ===== src/Governance/Approval.antt =====
-- app/governance/approval_workflow.py
pub mod Laws
pub mod Asking
pub mod Decided
use Prim.Native.String.{◌++◌}
use ai_risk_engine.Errors.{Error, invalid_workflow_state_error}
use ai_risk_engine.Exec.{Exec, Result, ok, err, pure, lift, fail_if, raise, ◌>>=◌, ◌>>◌}
use ai_risk_engine.Governance.Audit.{AuditRecord, AuditLogger, utc_now, log_action, untimed}
use ai_risk_engine.Json.{str, field, end}
use ai_risk_engine.Prelude.{
  ◌≡◌, Bool, true, false, not, String, Option, none, some, if◌then◌else◌, ◌==◌,
}
use ai_risk_engine.Security.Rbac.{Role, check_permission}

pub data ApprovalStatus : Type 0 where
  pending approved rejected : ApprovalStatus

-- `.value`
unfoldable pub status_value : ApprovalStatus → String
status_value pending = "PENDING"
status_value approved = "APPROVED"
status_value rejected = "REJECTED"

pub record ApprovalRequest : Type 0 where
  pub request_id : String
  pub resource_type : String
  pub resource_id : String
  pub requested_by : String
  pub status : ApprovalStatus
  pub created_at : String
  pub decided_by : Option String
  pub decided_at : Option String
  pub reason : Option String

-- The protocol `ApprovalRepository`.
pub record ApprovalRepository (W : Type 0) : Type 0 where
  pub save : ApprovalRequest → Exec W (Unit {0})
  pub get : String → Exec W (Option ApprovalRequest)

-- The keyword arguments of `request_approval`.
pub record RequestArgs : Type 0 where
  pub request_id : String
  pub resource_type : String
  pub resource_id : String
  pub requested_by : String
  pub tenant_id : String
  pub correlation_id : String
  pub reason : Option String

-- The keyword arguments of `approve` and `reject`: who decides is `decider_id`.
pub record DecisionArgs : Type 0 where
  pub request_id : String
  pub decider_role : Role
  pub decider_id : String
  pub tenant_id : String
  pub correlation_id : String
  pub reason : Option String

abbrev pub invalid_state : String → Error
invalid_state m = record { cls = invalid_workflow_state_error; message = m }

abbrev pub not_pending : String → ApprovalStatus → Error
not_pending request_id s =
    invalid_state ("Request not pending: " ++ request_id ++ " (status=" ++ status_value s ++ ")")

-- The two checks on the stored request.
unfoldable pub require_pending : String → Option ApprovalRequest → Result ApprovalRequest
require_pending request_id none = err (invalid_state ("Approval request not found: " ++ request_id))
require_pending request_id (some request) = elim request.status [
  | pending ↦ ok request
  | other ↦ err (not_pending request_id other)
]

module _ {W : Type 0} (repo : ApprovalRepository W) (audit : AuditLogger W) where
  -- `ApprovalWorkflow.request_approval`
  unfoldable pub request_approval : RequestArgs → Exec W ApprovalRequest
  unfolding log_action pure ◌>>=◌
  request_approval a = do
    time ← utc_now audit
    let request : ApprovalRequest = record {
      request_id = a.request_id;
      resource_type = a.resource_type;
      resource_id = a.resource_id;
      requested_by = a.requested_by;
      status = pending;
      created_at = time;
      decided_by = none;
      decided_at = none;
      reason = a.reason;
    }
    repo.save request
    log_action audit (record {
      actor = a.requested_by;
      tenant_id = a.tenant_id;
      action = "approval_requested";
      resource_type = a.resource_type;
      resource_id = a.resource_id;
      reason = a.reason;
      correlation_id = a.correlation_id;
      metadata = some (field "request_id" (str a.request_id) end);
      timestamp_utc = untimed;
    })
    pure request

  -- The body that `approve` and `reject` share but for the new status and the audited action.
  unfoldable pub decide : ApprovalStatus → String → DecisionArgs → Exec W ApprovalRequest
  unfolding log_action pure lift ◌>>=◌
  decide status action a = do
    lift (check_permission a.decider_role "approve")
    found ← repo.get a.request_id
    request ← lift (require_pending a.request_id found)
    time ← utc_now audit
    let decided : ApprovalRequest = record request {
      status = status;
      decided_by = some a.decider_id;
      decided_at = some time;
      reason = a.reason;
    }
    repo.save decided
    log_action audit (record {
      actor = a.decider_id;
      tenant_id = a.tenant_id;
      action = action;
      resource_type = request.resource_type;
      resource_id = request.resource_id;
      reason = a.reason;
      correlation_id = a.correlation_id;
      metadata = some (field "request_id" (str a.request_id) end);
      timestamp_utc = untimed;
    })
    pure decided

  -- `ApprovalWorkflow.approve`
  unfoldable pub approve : DecisionArgs → Exec W ApprovalRequest
  unfolding decide
  approve = decide approved "approval_approved"

  -- `ApprovalWorkflow.reject`
  unfoldable pub reject : DecisionArgs → Exec W ApprovalRequest
  unfolding decide
  reject = decide rejected "approval_rejected"
