-- ===== src/Governance/Prompts/Versions.antt =====
-- The versions of a prompt over a sequence of updates.
use ai_risk_engine.Exec.{ok, returned}
use ai_risk_engine.Governance.Audit.{AuditRecord, AuditLogger}
use ai_risk_engine.Governance.Prompts.{
  PromptRecord, PromptRegistryRepository, PromptArgs, require_existing, update_prompt, change_entry,
}
use ai_risk_engine.Json.{int, field, end}
use ai_risk_engine.Prelude.{
  ℕ, ◌+◌, ◌<◌, ◌≡◌, refl, sym, subst, ◌∙◌, All, String, Option, none, some, List, [], ◌∷◌, length,
  arith,
}
use ai_risk_engine.Prelude.Int.{pos}

module _ {W : Type 0} (int_str : ℕ → String) (repo : PromptRegistryRepository W)
    (audit : AuditLogger W) where
  -- A repository whose latest version of a prompt is the one with the highest number that was saved;
  -- the clock and the audit trail leave it alone.
  pub record IsPromptStore (latest : W → String → Option PromptRecord) : Type 0 where
    pub get_reads : (k : String) (w : W) → repo.get k none w ≡ (ok (latest w k), w)
    pub save_ok : (p : PromptRecord) (w : W) → (repo.save p w).0 ≡ ok tt
    pub save_newer :
        (p q : PromptRecord) (w : W)
        → latest w p.prompt_id ≡ some q
        → q.version < p.version
        → latest (repo.save p w).1 p.prompt_id ≡ some p
    pub now_latest : (w : W) (k : String) → latest (audit.now w).1 k ≡ latest w k
    pub audit_ok : (r : AuditRecord) (w : W) → (audit.save r w).0 ≡ ok tt
    pub audit_latest :
        (r : AuditRecord) (w : W) (k : String) → latest (audit.save r w).1 k ≡ latest w k

  unfoldable pub update_all : List PromptArgs → W → W
  update_all [] w = w
  update_all (a ∷ rest) w = update_all rest (update_prompt int_str repo audit a w).1

  abbrev pub IsOf : String → PromptArgs → Type 0
  IsOf k a = a.prompt_id ≡ k

  module _ {latest : W → String → Option PromptRecord} (store : IsPromptStore latest) where
    abbrev updated : PromptArgs → PromptRecord → String → PromptRecord
    updated a p time = record {
      prompt_id = a.prompt_id;
      name = p.name;
      version = p.version + 1;
      content = a.content;
      change_reason = a.change_reason;
      author = a.author;
      created_at = time;
    }

    update_latest :
        (a : PromptArgs) (w : W) (p : PromptRecord)
        → latest w a.prompt_id ≡ some p
        → (time : String) × (latest (update_prompt int_str repo audit a w).1 a.prompt_id
            ≡ some (updated a p time))
    unfolding update_prompt require_existing
    update_latest a w p found =
        let time = (audit.now w).0 in
        let w₁ = (audit.now w).1 in
        let q = updated a p time in
        let w₂ = (repo.save q w₁).1 in
        let w₃ = (audit.now w₂).1 in
        let entry : AuditRecord =
          record (change_entry int_str "prompt_updated" a (p.version + 1)
            (field "previous_version" (int (pos p.version)) end)) {
              timestamp_utc = (audit.now w₂).0;
            } in
        (
          time,
          rw
              (
                store.get_reads,
                found,
                returned (repo.save q w₁) (store.save_ok q w₁),
                returned (audit.save entry w₃) (store.audit_ok entry w₃),
                store.audit_latest entry w₃ a.prompt_id,
                store.now_latest w₂ a.prompt_id,
              )
              (store.save_newer q p w₁ (store.now_latest w a.prompt_id ∙ found) (omega arith)),
        )

    -- Every update of a registered prompt adds one to its version: after a sequence of updates of it,
    -- the latest version has as many more as there were updates, and the name it was registered with.
    pub update_all-counts :
        (updates : List PromptArgs) (w : W) (k : String) (p : PromptRecord)
        → All (IsOf k) updates
        → latest w k ≡ some p
        → (q : PromptRecord) × (latest (update_all updates w) k ≡ some q)
          × (q.version ≡ p.version + length updates)
          × (q.name ≡ p.name)
    unfolding update_all
    update_all-counts [] w k p own found = (p, found, omega arith, refl)
    update_all-counts (a ∷ rest) w k p own found =
        let w' = (update_prompt int_str repo audit a w).1 in
        let (time, newer) =
          update_latest a w p (subst (λ j. latest w j ≡ some p) (sym own.0) found) in
        let u = updated a p time in
        let (q, there, number, name) =
          update_all-counts rest w' k u own.1 (subst (λ j. latest w' j ≡ some u) own.0 newer) in
        (q, there, omega (arith, number), name)
