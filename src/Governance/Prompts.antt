-- ===== src/Governance/Prompts.antt =====
-- app/governance/prompt_registry.py. How Python prints an int is a parameter.
pub mod Versions
use Prim.Native.String.{◌++◌}
use ai_risk_engine.Errors.{prompt_not_approved_error, value_error}
use ai_risk_engine.Exec.{Exec, Result, ok, err, pure, lift, ◌>>=◌, ◌>>◌}
use ai_risk_engine.Governance.Audit.{AuditRecord, AuditLogger, utc_now, log_action, untimed}
use ai_risk_engine.Json.{Fields, str, int, field, end}
use ai_risk_engine.Prelude.{ℕ, ◌+◌, String, Option, none, some, if◌then◌else◌, is_empty}
use ai_risk_engine.Prelude.Int.{pos}

pub record PromptRecord : Type 0 where
  pub prompt_id : String
  pub name : String
  pub version : ℕ
  pub content : String
  pub change_reason : String
  pub author : String
  pub created_at : String

-- The protocol `PromptRegistryRepository`, without `get_versions`, which nothing calls.
pub record PromptRegistryRepository (W : Type 0) : Type 0 where
  pub save : PromptRecord → Exec W (Unit {0})
  pub get : String → Option ℕ → Exec W (Option PromptRecord)

-- The keyword arguments of `update_prompt`, which are those of `register_prompt` but for the name.
pub record PromptArgs : Type 0 where
  pub prompt_id : String
  pub content : String
  pub change_reason : String
  pub author : String
  pub tenant_id : String
  pub correlation_id : String
  pub actor : Option String

-- `actor or author`
abbrev actor_of : PromptArgs → String
actor_of a = elim a.actor [ none ↦ a.author | some x ↦ if is_empty x then a.author else x ]

-- `if existing is None: raise ValueError(…)`
unfoldable pub require_existing : String → Option PromptRecord → Result PromptRecord
require_existing prompt_id none =
    err (record { cls = value_error; message = "Prompt not found: " ++ prompt_id })
require_existing prompt_id (some p) = ok p

-- `if record is None: raise PromptNotApprovedError(…)`
unfoldable pub require_found : String → Option PromptRecord → Result PromptRecord
require_found prompt_id none = err (record {
  cls = prompt_not_approved_error;
  message = "Prompt not approved or not found: " ++ prompt_id;
})
require_found prompt_id (some p) = ok p

module _ (int_str : ℕ → String) where
  abbrev change_entry : String → PromptArgs → ℕ → Fields → AuditRecord
  change_entry action a version more = record {
    actor = actor_of a;
    tenant_id = a.tenant_id;
    action = action;
    resource_type = "prompt";
    resource_id = a.prompt_id ++ "@" ++ int_str version;
    reason = some a.change_reason;
    correlation_id = a.correlation_id;
    metadata = some (
        field "prompt_id" (str a.prompt_id)
          (field "version" (int (pos version)) (field "author" (str a.author) more)));
    timestamp_utc = untimed;
  }

  module _ {W : Type 0} (repo : PromptRegistryRepository W) (audit : AuditLogger W) where
    -- `PromptRegistry.register_prompt`
    unfoldable pub register_prompt : String → PromptArgs → Exec W PromptRecord
    unfolding log_action pure ◌>>=◌
    register_prompt name a = do
      time ← utc_now audit
      let p : PromptRecord = record {
        prompt_id = a.prompt_id;
        name = name;
        version = 1;
        content = a.content;
        change_reason = a.change_reason;
        author = a.author;
        created_at = time;
      }
      repo.save p
      log_action audit (change_entry "prompt_registered" a 1 end)
      pure p

    -- `PromptRegistry.update_prompt`
    unfoldable pub update_prompt : PromptArgs → Exec W PromptRecord
    unfolding log_action pure lift ◌>>=◌
    update_prompt a = do
      found ← repo.get a.prompt_id none
      existing ← lift (require_existing a.prompt_id found)
      time ← utc_now audit
      let p : PromptRecord = record {
        prompt_id = a.prompt_id;
        name = existing.name;
        version = existing.version + 1;
        content = a.content;
        change_reason = a.change_reason;
        author = a.author;
        created_at = time;
      }
      repo.save p
      log_action audit (
          change_entry "prompt_updated" a (existing.version + 1)
            (field "previous_version" (int (pos existing.version)) end))
      pure p

module _ {W : Type 0} (repo : PromptRegistryRepository W) where
  -- `PromptRegistry.get_prompt`
  unfoldable pub get_prompt : String → Option ℕ → Exec W (Option PromptRecord)
  get_prompt = repo.get

  -- `PromptRegistry.get_approved_prompt`
  unfoldable pub get_approved_prompt : String → Option ℕ → Exec W PromptRecord
  unfolding get_prompt lift ◌>>=◌
  get_approved_prompt prompt_id version = do
    found ← get_prompt prompt_id version
    lift (require_found prompt_id found)
