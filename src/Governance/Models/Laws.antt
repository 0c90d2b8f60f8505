-- ===== src/Governance/Models/Laws.antt =====
-- What the model registry promises.
use ai_risk_engine.Errors.{Error, model_not_approved_error}
use ai_risk_engine.Exec.{ok, err, returned, lift, proceed-eq-ok}
use ai_risk_engine.Governance.Audit.{AuditRecord, AuditLogger, IsTrail}
use ai_risk_engine.Governance.Models.{
  ModelStatus, pending, approved, rejected, ModelRecord, ModelRegistryRepository, ReviewArgs,
  not_approved, require_approvable, require_rejectable, require_deployable, review_entry,
  approve_model, reject_model, get_model, get_approved_model,
}
use Prim.Native.String.{◌++◌ as text_append}
use ai_risk_engine.Prelude.{
  ◌≡◌, ◌≢◌, refl, ◌∙◌, true, false, ◌&&◌, String, Option, none, some, List, ◌++◌, [], ◌∷◌,
  if◌then◌else◌, ◌==◌, arith, eq_refl, is_empty,
}

abbrev approved_record : ReviewArgs → String → ModelRecord → ModelRecord
approved_record a time m = record m {
  is_approved = true;
  approved_by = some a.actor;
  approved_at = some time;
  status = approved;
}

abbrev rejected_record : ModelRecord → ModelRecord
rejected_record m = record m {
  is_approved = false;
  approved_by = none;
  approved_at = none;
  status = rejected;
}

abbrev pub logged : String → ReviewArgs → String → AuditRecord
logged action a time = record (review_entry action a) { timestamp_utc = time }

deployable-approved :
    (name : String) (o : Option ModelRecord) {m : ModelRecord}
    → require_deployable name o ≡ ok m
    → (m.status ≡ approved) × (m.is_approved ≡ true)
unfolding require_deployable
deployable-approved name none h = absurd (ground arith)
deployable-approved name (some q) h = ground arith

module _ {W : Type 0} (repo : ModelRegistryRepository W) (audit : AuditLogger W) where
  -- What `get_approved_model` returns is approved, by its status and by its flag, whatever the
  -- repository holds or does.
  pub get_approved_model-approved :
      (name : String) (version : Option String) (w : W) {m : ModelRecord}
      → (get_approved_model repo audit name version w).0 ≡ ok m
      → (m.status ≡ approved) × (m.is_approved ≡ true)
  unfolding get_approved_model
  get_approved_model-approved name version w h =
      let (found, w', _, returns) =
        proceed-eq-ok (λ found. lift (require_deployable name found))
          (get_model repo audit name version w) h in
      deployable-approved name found returns

  pub record IsModelStore (view : W → String → String → Option ModelRecord)
      (trail : W → List AuditRecord) : Type 0 where
    pub is_trail : IsTrail audit trail
    pub get_reads : (n v : String) (w : W) → repo.get n v w ≡ (ok (view w n v), w)
    pub save_ok : (m : ModelRecord) (w : W) → (repo.save m w).0 ≡ ok tt
    pub save_view :
        (m : ModelRecord) (w : W) (n v : String)
        → view (repo.save m w).1 n v
          ≡ (if (m.model_name == n) && (m.version == v) then some m else view w n v)
    pub save_trail : (m : ModelRecord) (w : W) → trail (repo.save m w).1 ≡ trail w
    pub now_view : (w : W) (n v : String) → view (audit.now w).1 n v ≡ view w n v
    pub audit_view :
        (r : AuditRecord) (w : W) (n v : String) → view (audit.save r w).1 n v ≡ view w n v

  module _ {view : W → String → String → Option ModelRecord} {trail : W → List AuditRecord}
      (store : IsModelStore view trail) where
    -- A version that is looked up, with the registry's own answer.
    get_approved_lem :
        (n v : String) (w : W)
        → is_empty v ≡ false
        → get_approved_model repo audit n (some v) w ≡ (require_deployable n (view w n v), w)
    unfolding get_approved_model
    get_approved_lem n v w h = rw (h, store.get_reads) refl

    require_approvable_lem :
        (a : ReviewArgs) (m : ModelRecord)
        → m.status ≡ pending
        → require_approvable a (some m) ≡ ok m
    unfolding require_approvable
    require_approvable_lem a m h = ground arith

    require_rejectable_lem :
        (a : ReviewArgs) (m : ModelRecord) (s : ModelStatus)
        → m.status ≡ s
        → s ≢ rejected
        → require_rejectable a (some m) ≡ ok m
    unfolding require_rejectable
    require_rejectable_lem a m rejected e h = absurd (h refl)
    require_rejectable_lem a m approved e h = ground arith
    require_rejectable_lem a m pending e h = ground arith

    approve_runs :
        (a : ReviewArgs) (w : W) {m : ModelRecord}
        → require_approvable a (view w a.model_name a.version) ≡ ok m
        → let q = approved_record a (audit.now w).0 m in
          let w₂ = audit.now (repo.save q (audit.now w).1).1 in
          approve_model repo audit a w
          ≡ (ok q, (audit.save (logged "model_approved" a w₂.0) w₂.1).1)
    unfolding approve_model
    approve_runs a w {m} h =
        let q = approved_record a (audit.now w).0 m in
        let w₁ = (audit.now w).1 in
        let w₂ = audit.now (repo.save q w₁).1 in
        let entry = logged "model_approved" a w₂.0 in
        rw (
          store.get_reads,
          h,
          returned (repo.save q w₁) (store.save_ok q w₁),
          returned (audit.save entry w₂.1) (store.is_trail.save_ok entry w₂.1),
        )

    reject_runs :
        (a : ReviewArgs) (w : W) {m : ModelRecord}
        → require_rejectable a (view w a.model_name a.version) ≡ ok m
        → let w₂ = audit.now (repo.save (rejected_record m) w).1 in
          reject_model repo audit a w
          ≡ (ok (rejected_record m), (audit.save (logged "model_rejected" a w₂.0) w₂.1).1)
    unfolding reject_model
    reject_runs a w {m} h =
        let q = rejected_record m in
        let w₂ = audit.now (repo.save q w).1 in
        let entry = logged "model_rejected" a w₂.0 in
        rw (
          store.get_reads,
          h,
          returned (repo.save q w) (store.save_ok q w),
          returned (audit.save entry w₂.1) (store.is_trail.save_ok entry w₂.1),
        )

    -- What is found after a save, one more reading of the clock and one more audit record.
    view_after_save :
        (q : ModelRecord) (w : W) (entry : AuditRecord) (n v : String)
        → q.model_name ≡ n
        → q.version ≡ v
        → view (audit.save entry (audit.now (repo.save q w).1).1).1 n v ≡ some q
    view_after_save q w entry n v en ev =
        let w₂ = (repo.save q w).1 in
        rw
          (
            store.audit_view entry (audit.now w₂).1 n v,
            store.now_view w₂ n v,
            store.save_view q w n v,
            en,
            ev,
            eq_refl,
          )
          (rw eq_refl refl)

    -- Approving a stored model that is pending returns it approved, in the name of the reviewer, adds
    -- one audit record, and from then on `get_approved_model` returns that very record for the version.
    pub approve_model-deploys :
        (a : ReviewArgs) (w : W) (m : ModelRecord)
        → is_empty a.version ≡ false
        → view w a.model_name a.version ≡ some m
        → (m.model_name ≡ a.model_name) × (m.version ≡ a.version)
        → m.status ≡ pending
        → (q : ModelRecord) × (w' : W) × (time : String) × (approve_model repo audit a w
            ≡ (ok q, w'))
          × (q.approved_by ≡ some a.actor)
          × (q.checksum ≡ m.checksum)
          × (trail w' ≡ trail w ++ logged "model_approved" a time ∷ [])
          × (get_approved_model repo audit a.model_name (some a.version) w' ≡ (ok q, w'))
    unfolding require_approvable require_deployable
    approve_model-deploys a w m named found own is_pending =
        let w₁ = (audit.now w).1 in
        let q = approved_record a (audit.now w).0 m in
        let w₂ = audit.now (repo.save q w₁).1 in
        let entry = logged "model_approved" a w₂.0 in
        let w₃ = (audit.save entry w₂.1).1 in
        (
          q,
          w₃,
          w₂.0,
          approve_runs a w {m = m} (rw found (require_approvable_lem a m is_pending)),
          refl,
          refl,
          rw
              (
                store.is_trail.save_adds entry w₂.1,
                store.is_trail.now_keeps (repo.save q w₁).1,
                store.save_trail q w₁,
                store.is_trail.now_keeps w,
              )
              refl,
          get_approved_lem a.model_name a.version w₃ named
              ∙ rw (view_after_save q w₁ entry a.model_name a.version own.0 own.1) refl,
        )

    -- Rejecting a stored model that is pending, or was approved before, takes it out of use: after it
    -- `get_approved_model` raises ModelNotApprovedError for the version.
    pub reject_model-withdraws :
        (a : ReviewArgs) (w : W) (m : ModelRecord)
        → is_empty a.version ≡ false
        → view w a.model_name a.version ≡ some m
        → (m.model_name ≡ a.model_name) × (m.version ≡ a.version)
        → m.status ≢ rejected
        → (q : ModelRecord) × (w' : W) × (e : Error) × (reject_model repo audit a w ≡ (ok q, w'))
          × (q.status ≡ rejected)
          × (e.cls ≡ model_not_approved_error)
          × (get_approved_model repo audit a.model_name (some a.version) w' ≡ (err e, w'))
    unfolding require_rejectable require_deployable
    reject_model-withdraws a w m named found own live =
        let q = rejected_record m in
        let w₂ = audit.now (repo.save q w).1 in
        let entry = logged "model_rejected" a w₂.0 in
        let w₃ = (audit.save entry w₂.1).1 in
        (
          q,
          w₃,
          not_approved (
              text_append "Cannot deploy unapproved model: "
                (text_append a.model_name (text_append "@" m.version))),
          reject_runs a w {m = m} (rw found (require_rejectable_lem a m m.status refl live)),
          refl,
          refl,
          get_approved_lem a.model_name a.version w₃ named
              ∙ rw (view_after_save q w entry a.model_name a.version own.0 own.1) refl,
        )
