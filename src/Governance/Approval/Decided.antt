-- ===== src/Governance/Approval/Decided.antt =====
-- Decisions over any history of calls on the approval workflow.
use ai_risk_engine.Errors.{Error}
use ai_risk_engine.Exec.{Result, err}
use ai_risk_engine.Governance.Audit.{AuditRecord, AuditLogger}
use ai_risk_engine.Governance.Approval.{
  ApprovalStatus, pending, approved, rejected, ApprovalRequest, ApprovalRepository, DecisionArgs,
  RequestArgs, request_approval, decide, approve, reject,
}
use ai_risk_engine.Governance.Approval.Asking.{request_approval_lem}
use ai_risk_engine.Governance.Approval.Laws.{
  IsApprovalStore, pending_or_settled, decide-Decides, decide-Refuses, decision,
}
use ai_risk_engine.Prelude.{
  ◌≡◌, ◌≢◌, ◌⊎◌, inl, inr, refl, sym, ap, subst, ◌∙◌, All, String, Option, some, List, [], ◌∷◌,
  if◌then◌else◌, ◌==◌, eq_iff, eq_refl, arith, Bool-cases,
}
use ai_risk_engine.Security.Rbac.{May, check_permission, check_permission_sound}

pub data Call : Type 0 where
  asking : RequestArgs → Call
  approving rejecting : DecisionArgs → Call

module _ {W : Type 0} (repo : ApprovalRepository W) (audit : AuditLogger W) where
  unfoldable pub perform : Call → W → W
  perform (asking a) w = (request_approval repo audit a w).1
  perform (approving a) w = (approve repo audit a w).1
  perform (rejecting a) w = (reject repo audit a w).1

  unfoldable pub perform_all : List Call → W → W
  perform_all [] w = w
  perform_all (c ∷ cs) w = perform_all cs (perform c w)

  -- The call does not ask anew for the approval with this id.
  abbrev pub NotAsking : String → Call → Type 0
  NotAsking k (asking a) = a.request_id ≢ k
  NotAsking k _ = Unit

  module _ {view : W → String → Option ApprovalRequest} {trail : W → List AuditRecord}
      (store : IsApprovalStore repo audit view trail) where
    -- Every stored request stands under its own id.
    abbrev pub IsKeyed : W → Type 0
    IsKeyed w = (k : String) (r : ApprovalRequest) → view w k ≡ some r → r.request_id ≡ k

    decide_denied :
        (status : ApprovalStatus) (action : String) (a : DecisionArgs) (w : W) (k : String)
        {e : Error}
        → check_permission a.decider_role "approve" ≡ err e
        → view (decide repo audit status action a w).1 k ≡ view w k
    unfolding decide
    decide_denied status action a w k fail = rw fail refl

    -- What a decision can do to the entry of a key: nothing, or decide a pending request.
    decide_entry :
        (status : ApprovalStatus) (action : String) (a : DecisionArgs) (w : W) (k : String)
        → IsKeyed w
        → (view (decide repo audit status action a w).1 k ≡ view w k)
          ⊎ ((r : ApprovalRequest) × (time : String) × (view w k ≡ some r)
              × (r.status ≡ pending)
              × (view (decide repo audit status action a w).1 k
                  ≡ some (decision repo audit status a time r)))
    decide_entry status action a w k keyed =
        let (may, _, outcome) = check_permission_sound a.decider_role "approve" in
        elim outcome [
          | inr fail ↦ inl (decide_denied status action a w k fail)
          | inl pass ↦ elim (pending_or_settled repo audit (view w a.request_id)) [
            | inr settled ↦
                let (e, _, same) =
                  decide-Refuses repo audit store status action a w (may pass) settled in
                inl (ap (λ (out : Result ApprovalRequest × W). view out.1 k) same)
            | inl (r, found, waiting) ↦
                let (time, logged, _, views, _) =
                  decide-Decides repo audit store status action a w r (may pass) found waiting in
                elim (Bool-cases (r.request_id == k)) [
                  | inr other ↦ inl (rw other at (views k))
                  | inl this ↦
                      let here : r.request_id ≡ k = (eq_iff r.request_id k).0 this in
                      let own : r.request_id ≡ a.request_id = keyed a.request_id r found in
                      inr (
                        r,
                        time,
                        subst (λ j. view w j ≡ some r) (sym own ∙ here) found,
                        waiting,
                        rw this at (views k),
                      )
                ]
          ]
        ]

    decide_keeps :
        (status : ApprovalStatus) (action : String) (a : DecisionArgs) (w : W)
        → IsKeyed w
        → IsKeyed (decide repo audit status action a w).1
          × ((k : String) (r : ApprovalRequest)
              → view w k ≡ some r
              → r.status ≢ pending
              → view (decide repo audit status action a w).1 k ≡ some r)
    decide_keeps status action a w keyed = (
      λ k r e. elim (decide_entry status action a w k keyed) [
        | inl same ↦ keyed k r (sym same ∙ e)
        | inr (q, time, found, waiting, new) ↦ let own = keyed k q found in ground arith
      ],
      λ k r e settled. elim (decide_entry status action a w k keyed) [
        | inl same ↦ same ∙ e
        | inr (q, time, found, waiting, new) ↦ absurd (ground arith)
      ],
    )

    asking_keeps :
        (a : RequestArgs) (w : W)
        → IsKeyed w
        → IsKeyed (request_approval repo audit a w).1
          × ((k : String)
              → a.request_id ≢ k
              → view (request_approval repo audit a w).1 k ≡ view w k)
    asking_keeps a w keyed =
        let (q, _, _, own, _, views) = request_approval_lem repo audit store a w in
        (
          λ k r e. ground (arith, views k, eq_iff a.request_id k, keyed k r),
          λ k other. ground (arith, views k, eq_iff a.request_id k),
        )

    perform_keeps :
        (c : Call) (w : W) (k : String) (r : ApprovalRequest)
        → NotAsking k c
        → IsKeyed w
        → view w k ≡ some r
        → r.status ≢ pending
        → IsKeyed (perform c w) × (view (perform c w) k ≡ some r)
    unfolding perform approve reject
    perform_keeps (asking a) w k r other keyed found settled =
        let (still, views) = asking_keeps a w keyed in (still, views k other ∙ found)
    perform_keeps (approving a) w k r other keyed found settled =
        let (still, views) = decide_keeps approved "approval_approved" a w keyed in
        (still, views k r found settled)
    perform_keeps (rejecting a) w k r other keyed found settled =
        let (still, views) = decide_keeps rejected "approval_rejected" a w keyed in
        (still, views k r found settled)

    -- A decided request stays exactly as it was decided through any sequence of calls, by any roles
    -- and with any errors on the way, as long as nobody asks anew for an approval under its id.
    pub decided_forever :
        (cs : List Call) (w : W) (k : String) (r : ApprovalRequest)
        → All (NotAsking k) cs
        → IsKeyed w
        → view w k ≡ some r
        → r.status ≢ pending
        → view (perform_all cs w) k ≡ some r
    unfolding perform_all
    decided_forever [] w k r quiet keyed found settled = found
    decided_forever (c ∷ cs) w k r quiet keyed found settled =
        let (still, same) = perform_keeps c w k r quiet.0 keyed found settled in
        decided_forever cs (perform c w) k r quiet.1 still same settled

    -- Asking anew under the id of a decided request makes it pending again: an approval that was
    -- rejected is then approved by whoever may approve.
    pub asking_reopens :
        (a : RequestArgs) (d : DecisionArgs) (w : W)
        → d.request_id ≡ a.request_id
        → May d.decider_role "approve"
        → (r : ApprovalRequest) × (view (perform (approving d) (perform (asking a) w)) a.request_id
            ≡ some r)
          × (r.status ≡ approved)
    unfolding perform approve
    asking_reopens a d w same may =
        let k = a.request_id in
        let (q, _, waiting, own, _, views) = request_approval_lem repo audit store a w in
        let found : view (request_approval repo audit a w).1 k ≡ some q =
          views k ∙ ap (λ b. if b then some q else view w k) (eq_refl k) in
        let (time, _, _, decided, _) =
          decide-Decides repo audit store approved "approval_approved" d
            (request_approval repo audit a w).1 q may (rw same found) waiting in
        (decision repo audit approved d time q, decided k ∙ rw (own, eq_refl) refl, refl)
