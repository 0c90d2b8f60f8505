-- ===== src/Governance/Approval/Laws.antt =====
-- What a call of the approval workflow does, over a repository that keeps what is saved.
use ai_risk_engine.Errors.{Error, invalid_workflow_state_error}
use ai_risk_engine.Exec.{Result, ok, err, returned}
use ai_risk_engine.Governance.Audit.{AuditRecord, AuditLogger, IsTrail}
use ai_risk_engine.Governance.Approval.{
  ApprovalStatus, pending, approved, rejected, ApprovalRequest, ApprovalRepository, DecisionArgs,
  not_pending, require_pending, decide, approve, reject,
}
use ai_risk_engine.Json.{str, field, end}
use ai_risk_engine.Prelude.{
  ◌≡◌, ◌≢◌, ◌⊎◌, inl, inr, refl, String, Option, none, some, List, ◌++◌, [], ◌∷◌, if◌then◌else◌,
  ◌==◌, arith,
}
use ai_risk_engine.Security.Rbac.{denied, May, check_permission_sound}

ApprovalStatus-cases : (s : ApprovalStatus) → (s ≡ pending) ⊎ (s ≢ pending)
ApprovalStatus-cases pending = inl refl
ApprovalStatus-cases approved = inr (ground arith)
ApprovalStatus-cases rejected = inr (ground arith)

module _ {W : Type 0} (repo : ApprovalRepository W) (audit : AuditLogger W) where
  -- A repository that keeps what is saved, seen as a function from ids to requests; the audit
  -- trail and the clock leave it alone, and it leaves the trail alone.
  pub record IsApprovalStore (view : W → String → Option ApprovalRequest)
      (trail : W → List AuditRecord) : Type 0 where
    pub is_trail : IsTrail audit trail
    pub get_reads : (k : String) (w : W) → repo.get k w ≡ (ok (view w k), w)
    pub save_ok : (r : ApprovalRequest) (w : W) → (repo.save r w).0 ≡ ok tt
    pub save_view :
        (r : ApprovalRequest) (w : W) (k : String)
        → view (repo.save r w).1 k ≡ (if r.request_id == k then some r else view w k)
    pub save_trail : (r : ApprovalRequest) (w : W) → trail (repo.save r w).1 ≡ trail w
    pub now_view : (w : W) (k : String) → view (audit.now w).1 k ≡ view w k
    pub audit_view : (r : AuditRecord) (w : W) (k : String) → view (audit.save r w).1 k ≡ view w k

  -- A role that may not approve gets AuthorizationError from both decisions, before the repository
  -- or the audit trail is touched, whatever these are.
  pub decide_unauthorized :
      (a : DecisionArgs) (w : W)
      → ¬ May a.decider_role "approve"
      → (approve repo audit a w ≡ (err (denied a.decider_role "approve"), w))
        × (reject repo audit a w ≡ (err (denied a.decider_role "approve"), w))
  unfolding approve reject
  decide_unauthorized a w h =
      let (may, _, outcome) = check_permission_sound a.decider_role "approve" in
      elim outcome [ inl pass ↦ absurd (h (may pass)) | inr fail ↦ (rw fail, rw fail) ]

  -- The request that a decision stores: who decided, when and why, all else as it was.
  abbrev pub decision : ApprovalStatus → DecisionArgs → String → ApprovalRequest → ApprovalRequest
  decision status a time r = record r {
    status = status;
    decided_by = some a.decider_id;
    decided_at = some time;
    reason = a.reason;
  }

  -- The audit record of a decision.
  abbrev pub decision_entry : String → DecisionArgs → ApprovalRequest → String → AuditRecord
  decision_entry action a r time = record {
    actor = a.decider_id;
    tenant_id = a.tenant_id;
    action = action;
    resource_type = r.resource_type;
    resource_id = r.resource_id;
    reason = a.reason;
    correlation_id = a.correlation_id;
    metadata = some (field "request_id" (str a.request_id) end);
    timestamp_utc = time;
  }

  require_pending_lem :
      (k : String) (r : ApprovalRequest) → r.status ≡ pending → require_pending k (some r) ≡ ok r
  unfolding require_pending
  require_pending_lem k r h = ground arith

  pub pending_or_settled :
      (o : Option ApprovalRequest)
      → ((r : ApprovalRequest) × (o ≡ some r) × (r.status ≡ pending))
        ⊎ ((r : ApprovalRequest) → o ≡ some r → r.status ≢ pending)
  pending_or_settled none = inr (λ r e. cc)
  pending_or_settled (some r) = elim (ApprovalStatus-cases r.status) [
    | inl p ↦ inl (r, refl, p)
    | inr n ↦ inr (λ q e p. n (ground arith))
  ]

  refused_at_status :
      (k : String) (r : ApprovalRequest) (s : ApprovalStatus)
      → r.status ≡ s
      → s ≢ pending
      → require_pending k (some r) ≡ err (not_pending k s)
  unfolding require_pending
  refused_at_status k r pending e h = absurd (h refl)
  refused_at_status k r approved e h = ground arith
  refused_at_status k r rejected e h = ground arith

  refused_unless_pending :
      (k : String) (o : Option ApprovalRequest)
      → ((r : ApprovalRequest) → o ≡ some r → r.status ≢ pending)
      → (e : Error) × (e.cls ≡ invalid_workflow_state_error) × (require_pending k o ≡ err e)
  unfolding require_pending
  refused_unless_pending k none h = (_, refl, refl)
  refused_unless_pending k (some r) h =
      (not_pending k r.status, refl, refused_at_status k r r.status refl (h r refl))

  module _ {view : W → String → Option ApprovalRequest} {trail : W → List AuditRecord}
      (store : IsApprovalStore view trail) where
    decide_runs :
        (status : ApprovalStatus) (action : String) (a : DecisionArgs) (w : W) (r : ApprovalRequest)
        → May a.decider_role "approve"
        → view w a.request_id ≡ some r
        → r.status ≡ pending
        → let d = decision status a (audit.now w).0 r in
          let w' = (audit.now (repo.save d (audit.now w).1).1) in
          decide repo audit status action a w
          ≡ (ok d, (audit.save (decision_entry action a r w'.0) w'.1).1)
    unfolding decide
    decide_runs status action a w r may found is_pending =
        let pass = (check_permission_sound a.decider_role "approve").1 may in
        let d = decision status a (audit.now w).0 r in
        let w' = audit.now (repo.save d (audit.now w).1).1 in
        let entry = decision_entry action a r w'.0 in
        rw (
          pass,
          store.get_reads,
          found,
          require_pending_lem a.request_id r is_pending,
          returned (repo.save d (audit.now w).1) (store.save_ok d (audit.now w).1),
          returned (audit.save entry w'.1) (store.is_trail.save_ok entry w'.1),
        )

    -- `out` is a decision on the request `r`: it returns the request with the decision in it, stores
    -- that under the request's id and nothing else, and adds one audit record.
    abbrev pub Decides :
        ApprovalStatus
        → String
        → DecisionArgs
        → W
        → ApprovalRequest
        → Result ApprovalRequest × W
        → Type 0
    Decides status action a w r out =
        (time : String) × (logged : String) × (out.0 ≡ ok (decision status a time r))
        × ((k : String)
            → view out.1 k
              ≡ (if r.request_id == k then some (decision status a time r) else view w k))
        × (trail out.1 ≡ trail w ++ decision_entry action a r logged ∷ [])

    pub decide-Decides :
        (status : ApprovalStatus) (action : String) (a : DecisionArgs) (w : W) (r : ApprovalRequest)
        → May a.decider_role "approve"
        → view w a.request_id ≡ some r
        → r.status ≡ pending
        → Decides status action a w r (decide repo audit status action a w)
    decide-Decides status action a w r may found is_pending =
        let w₁ = (audit.now w).1 in
        let d = decision status a (audit.now w).0 r in
        let w₂ = (repo.save d w₁).1 in
        let time = (audit.now w₂).0 in
        let w₃ = (audit.now w₂).1 in
        let entry = decision_entry action a r time in
        rw (decide_runs status action a w r may found is_pending) (
          (audit.now w).0,
          time,
          refl,
          λ k.
              rw
                (
                  store.audit_view entry w₃ k,
                  store.now_view w₂ k,
                  store.save_view d w₁ k,
                  store.now_view w k,
                )
                refl,
          rw
              (
                store.is_trail.save_adds entry w₃,
                store.is_trail.now_keeps w₂,
                store.save_trail d w₁,
                store.is_trail.now_keeps w,
              )
              refl,
        )

    -- With a role that may approve, and a pending request stored under the id, `approve` and `reject`
    -- return the request with the new status, decider, time and reason, store exactly that, and add
    -- exactly one audit record, which names the decider and the action.
    pub approve-reject_pending :
        (a : DecisionArgs) (w : W) (r : ApprovalRequest)
        → May a.decider_role "approve"
        → view w a.request_id ≡ some r
        → r.status ≡ pending
        → Decides approved "approval_approved" a w r (approve repo audit a w)
          × Decides rejected "approval_rejected" a w r (reject repo audit a w)
    unfolding approve reject
    approve-reject_pending a w r may found is_pending = (
      decide-Decides approved "approval_approved" a w r may found is_pending,
      decide-Decides rejected "approval_rejected" a w r may found is_pending,
    )

    -- Raised InvalidWorkflowStateError, nothing changed.
    abbrev pub Refuses : W → Result ApprovalRequest × W → Type 0
    Refuses w out = (e : Error) × (e.cls ≡ invalid_workflow_state_error) × (out ≡ (err e, w))

    pub decide-Refuses :
        (status : ApprovalStatus) (action : String) (a : DecisionArgs) (w : W)
        → May a.decider_role "approve"
        → ((r : ApprovalRequest) → view w a.request_id ≡ some r → r.status ≢ pending)
        → Refuses w (decide repo audit status action a w)
    unfolding decide
    decide-Refuses status action a w may settled =
        let pass = (check_permission_sound a.decider_role "approve").1 may in
        let (e, cls, refused) = refused_unless_pending a.request_id (view w a.request_id) settled in
        (e, cls, rw (pass, store.get_reads, refused))

    -- With a role that may approve, but no pending request stored under the id, both decisions raise
    -- InvalidWorkflowStateError and change nothing: a request is decided once.
    pub approve-reject_settled :
        (a : DecisionArgs) (w : W)
        → May a.decider_role "approve"
        → ((r : ApprovalRequest) → view w a.request_id ≡ some r → r.status ≢ pending)
        → Refuses w (approve repo audit a w) × Refuses w (reject repo audit a w)
    unfolding approve reject
    approve-reject_settled a w may settled = (
      decide-Refuses approved "approval_approved" a w may settled,
      decide-Refuses rejected "approval_rejected" a w may settled,
    )
