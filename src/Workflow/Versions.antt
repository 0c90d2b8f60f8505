-- ===== src/Workflow/Versions.antt =====
-- `_resolve_versions` of app/workflows/langgraph/risk_workflow.py and compliance_workflow.py, and the
-- handler in `run` of the errors that it raises.
use Prim.Native.String.{◌++◌ as text_append}
use ai_risk_engine.Errors.{Error, ErrorClass, model_not_approved_error, prompt_not_approved_error}
use ai_risk_engine.Exec.{Exec, pure, throw, ◌>>=◌, ◌>>◌}
use ai_risk_engine.Governance.Audit.{log_action, untimed}
use ai_risk_engine.Governance.Models.{ModelRegistryRepository, get_approved_model}
use ai_risk_engine.Governance.Prompts.{PromptRegistryRepository, get_approved_prompt}
use ai_risk_engine.Json.{str, field, end}
use ai_risk_engine.Observability.Failures.{isinstance}
use ai_risk_engine.Prelude.{
  ℕ, Bool, ◌&&◌, ◌||◌, not, String, Option, none, some, [], ◌∷◌, if◌then◌else◌, ◌==◌, leb,
}
use ai_risk_engine.Workflow.Services.{Services}
use ai_risk_engine.Workflow.Variant.{Variant}

-- `DEFAULT_MODEL_VERSION`, `DEFAULT_PROMPT_VERSION`
abbrev pub default_model_version : String
default_model_version = "simulated@1"

abbrev pub default_prompt_version : ℕ
default_prompt_version = 1

abbrev same_number : ℕ → ℕ → Bool
same_number a b = leb a b && leb b a

-- The class of a governance error, as the audit names it.
abbrev is_model_error : ErrorClass → Bool
is_model_error c = isinstance c (model_not_approved_error ∷ [])

module _ {W S : Type 0} (variant : Variant W S) (services : Services W S) where
  open variant.shape use {common, with_common}
  open services use {node, models, prompts}

  unfoldable pub model_version_of : Option (ModelRegistryRepository W) → Exec W String
  unfolding pure ◌>>=◌
  model_version_of none = pure default_model_version
  model_version_of (some repo) = do
    m ← get_approved_model repo node.audit variant.model_name none
    pure (text_append m.model_name (text_append "@" m.version))

  unfoldable pub prompt_version_of : Option (PromptRegistryRepository W) → Exec W ℕ
  unfolding pure ◌>>=◌
  prompt_version_of none = pure default_prompt_version
  prompt_version_of (some repo) = do
    p ← get_approved_prompt repo variant.prompt_name none
    pure p.version

  -- `_resolve_versions`
  unfoldable pub resolve_versions : S → Exec W S
  unfolding pure ◌>>=◌
  resolve_versions state = do
    model_version ← model_version_of models
    prompt_version ← prompt_version_of prompts
    pure (
        if not ((common state).model_version == model_version)
          || not (same_number (common state).prompt_version prompt_version)
        then with_common state (record (common state) {
          model_version = model_version;
          prompt_version = prompt_version;
        })
        else state)

  -- The handler of a governance error: audit it and raise it again.
  unfoldable pub on_governance_error : S → Error → Exec W S
  unfolding ◌>>=◌
  on_governance_error state e =
      if isinstance e.cls (model_not_approved_error ∷ prompt_not_approved_error ∷ [])
      then (do
        log_action node.audit (record {
          actor = "system";
          tenant_id = (common state).tenant_id;
          action = "GOVERNANCE_VIOLATION";
          resource_type = if is_model_error e.cls then "model" else "prompt";
          resource_id = if is_model_error e.cls then variant.model_name else variant.prompt_name;
          reason = some e.message;
          correlation_id = (common state).correlation_id;
          metadata = some (
              field "exception_type"
                (str (
                  if is_model_error e.cls
                  then "ModelNotApprovedError"
                  else "PromptNotApprovedError"))
                (field "event_id" (str (common state).event_id) end));
          timestamp_utc = untimed;
        })
        throw e)
      else throw e
