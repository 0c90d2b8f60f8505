-- ===== src/Governance/Models.antt =====
-- app/governance/model_registry.py
pub mod Laws
use Prim.Native.String.{◌++◌}
use ai_risk_engine.Errors.{Error, invalid_model_state_error, model_not_approved_error}
use ai_risk_engine.Exec.{Exec, Result, ok, err, pure, lift, ◌>>=◌, ◌>>◌}
use ai_risk_engine.Governance.Audit.{AuditRecord, AuditLogger, utc_now, log_action, untimed}
use ai_risk_engine.Json.{str, field, end}
use ai_risk_engine.Prelude.{
  Bool, true, false, ◌&&◌, String, Option, none, some, if◌then◌else◌, is_empty,
}

pub data ModelStatus : Type 0 where
  pending approved rejected : ModelStatus

pub record ModelRecord : Type 0 where
  pub model_name : String
  pub version : String
  pub checksum : String
  pub created_at : String
  pub is_approved : Bool
  pub approved_by : Option String
  pub approved_at : Option String
  pub status : ModelStatus

abbrev has_status_approved : ModelStatus → Bool
has_status_approved approved = true
has_status_approved _ = false

-- `ModelRecord.is_deployable`
unfoldable pub is_deployable : ModelRecord → Bool
is_deployable m = has_status_approved m.status && m.is_approved

-- The protocol `ModelRegistryRepository`.
pub record ModelRegistryRepository (W : Type 0) : Type 0 where
  pub save : ModelRecord → Exec W (Unit {0})
  pub get : String → String → Exec W (Option ModelRecord)
  pub get_latest : String → Exec W (Option ModelRecord)

-- The keyword arguments of `approve_model` and `reject_model`; `actor` is `approved_by` or
-- `rejected_by`.
pub record ReviewArgs : Type 0 where
  pub model_name : String
  pub version : String
  pub actor : String
  pub tenant_id : String
  pub correlation_id : String
  pub reason : Option String

abbrev pub invalid_state : String → Error
invalid_state m = record { cls = invalid_model_state_error; message = m }

abbrev pub not_approved : String → Error
not_approved m = record { cls = model_not_approved_error; message = m }

-- The checks of `approve_model` on what is stored.
unfoldable pub require_approvable : ReviewArgs → Option ModelRecord → Result ModelRecord
require_approvable a none =
    err (invalid_state ("Model not found: " ++ a.model_name ++ "@" ++ a.version))
require_approvable a (some existing) = elim existing.status [
  | approved ↦ err (invalid_state ("Model already approved: " ++ a.model_name ++ "@" ++ a.version))
  | rejected ↦
      err (invalid_state ("Cannot approve rejected model: " ++ a.model_name ++ "@" ++ a.version))
  | pending ↦ ok existing
]

-- The checks of `reject_model` on what is stored.
unfoldable pub require_rejectable : ReviewArgs → Option ModelRecord → Result ModelRecord
require_rejectable a none =
    err (invalid_state ("Model not found: " ++ a.model_name ++ "@" ++ a.version))
require_rejectable a (some existing) = elim existing.status [
  | rejected ↦ err (invalid_state ("Model already rejected: " ++ a.model_name ++ "@" ++ a.version))
  | other ↦ ok existing
]

-- The checks of `get_approved_model` on what was found.
unfoldable pub require_deployable : String → Option ModelRecord → Result ModelRecord
unfolding is_deployable
require_deployable model_name none = err (not_approved ("Model not found: " ++ model_name))
require_deployable model_name (some m) =
    if is_deployable m
    then ok m
    else err (not_approved ("Cannot deploy unapproved model: " ++ model_name ++ "@" ++ m.version))

abbrev review_entry : String → ReviewArgs → AuditRecord
review_entry action a = record {
  actor = a.actor;
  tenant_id = a.tenant_id;
  action = action;
  resource_type = "model";
  resource_id = a.model_name ++ "@" ++ a.version;
  reason = a.reason;
  correlation_id = a.correlation_id;
  metadata = some (field "model_name" (str a.model_name) (field "version" (str a.version) end));
  timestamp_utc = untimed;
}

module _ {W : Type 0} (repo : ModelRegistryRepository W) (audit : AuditLogger W) where
  -- `ModelRegistry.register_model`; the ids of tenant and request are not used by it.
  unfoldable pub register_model : String → String → String → Exec W ModelRecord
  unfolding utc_now pure ◌>>=◌
  register_model model_name version checksum = do
    time ← utc_now audit
    let m : ModelRecord = record {
      model_name = model_name;
      version = version;
      checksum = checksum;
      created_at = time;
      is_approved = false;
      approved_by = none;
      approved_at = none;
      status = pending;
    }
    repo.save m
    pure m

  -- `ModelRegistry.approve_model`
  unfoldable pub approve_model : ReviewArgs → Exec W ModelRecord
  unfolding log_action pure lift ◌>>=◌
  approve_model a = do
    found ← repo.get a.model_name a.version
    existing ← lift (require_approvable a found)
    time ← utc_now audit
    let m : ModelRecord = record existing {
      is_approved = true;
      approved_by = some a.actor;
      approved_at = some time;
      status = approved;
    }
    repo.save m
    log_action audit (review_entry "model_approved" a)
    pure m

  -- `ModelRegistry.reject_model`
  unfoldable pub reject_model : ReviewArgs → Exec W ModelRecord
  unfolding log_action pure lift ◌>>=◌
  reject_model a = do
    found ← repo.get a.model_name a.version
    existing ← lift (require_rejectable a found)
    let m : ModelRecord = record existing {
      is_approved = false;
      approved_by = none;
      approved_at = none;
      status = rejected;
    }
    repo.save m
    log_action audit (review_entry "model_rejected" a)
    pure m

  -- `ModelRegistry.get_model`; an empty version counts as none.
  unfoldable pub get_model : String → Option String → Exec W (Option ModelRecord)
  get_model model_name none = repo.get_latest model_name
  get_model model_name (some v) =
      if is_empty v then repo.get_latest model_name else repo.get model_name v

  -- `ModelRegistry.get_approved_model`
  unfoldable pub get_approved_model : String → Option String → Exec W ModelRecord
  unfolding lift ◌>>=◌ get_model require_deployable
  get_approved_model model_name version = do
    found ← get_model model_name version
    lift (require_deployable model_name found)
