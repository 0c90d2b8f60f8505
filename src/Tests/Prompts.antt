-- ===== src/Tests/Prompts.antt =====
-- Witnesses for the theorems on app/governance/prompt_registry.py.
use ai_risk_engine.Exec.{ok}
use ai_risk_engine.Governance.Audit.{AuditLogger}
use ai_risk_engine.Governance.Prompts.{PromptRecord, PromptRegistryRepository, PromptArgs}
use ai_risk_engine.Governance.Prompts.Versions.{IsPromptStore, update_all, update_all-counts}
use ai_risk_engine.Prelude.{
  ℕ, ◌+◌, if◌then◌else◌, ◌==◌, eq_refl, Option, ◌≡◌, refl, String, none, some, List, [], ◌∷◌,
}

-- Prompts alone, the latest version first.
record Library : Type 0 where
  prompts : List PromptRecord

abbrev find_prompt : List PromptRecord → String → Option PromptRecord
find_prompt [] k = none
find_prompt (p ∷ ps) k = if p.prompt_id == k then some p else find_prompt ps k

abbrev latest : Library → String → Option PromptRecord
latest w = find_prompt w.prompts

abbrev prompts : PromptRegistryRepository Library
prompts = record {
  save = λ p w. (ok tt, record w { prompts = p ∷ w.prompts });
  get = λ k v w. (ok (latest w k), w);
}

abbrev silent : AuditLogger Library
silent = record { now = λ w. ("2026-01-02", w); save = λ r w. (ok tt, w) }

abbrev digits : ℕ → String
digits n = "n"

prompts-IsPromptStore : IsPromptStore digits prompts silent latest
prompts-IsPromptStore = record {
  get_reads = λ k w. refl;
  save_ok = λ p w. refl;
  save_newer = λ p q w found newer. rw (eq_refl p.prompt_id) refl;
  now_latest = λ w k. refl;
  audit_ok = λ r w. refl;
  audit_latest = λ r w k. refl;
}

abbrev first_prompt : PromptRecord
first_prompt = record {
  prompt_id = "risk-prompt";
  name = "Risk";
  version = 1;
  content = "Assess";
  change_reason = "new";
  author = "bob";
  created_at = "2026-01-01";
}

abbrev rewording : PromptArgs
rewording = record {
  prompt_id = "risk-prompt";
  content = "Assess the risk";
  change_reason = "clearer";
  author = "alice";
  tenant_id = "t1";
  correlation_id = "c1";
  actor = none;
}

abbrev library : Library
library = record { prompts = first_prompt ∷ [] }

update_all-counts_example :
    (q : PromptRecord) × (latest
        (update_all digits prompts silent (rewording ∷ rewording ∷ []) library)
        "risk-prompt"
      ≡ some q)
    × (q.version ≡ 1 + 2)
    × (q.name ≡ "Risk")
update_all-counts_example =
    update_all-counts digits prompts silent prompts-IsPromptStore (rewording ∷ rewording ∷ [])
      library "risk-prompt" first_prompt (refl, (refl, tt)) refl
