-- ===== src/Workflow/RedisStore.antt =====
-- `RedisWorkflowStateStore` of app/workflows/langgraph/workflow_state_store.py over `get_cache` and
-- `set_cache` of the Redis client. The JSON form of a state is pydantic's: `dump_…` and `load_…` are
-- parameters.
pub mod Refinement
use Prim.Native.String.{◌++◌}
use ai_risk_engine.Application.EventService.{Cache}
use ai_risk_engine.Exec.{Exec, Result, pure, lift, ◌>>=◌}
use ai_risk_engine.Prelude.{ℕ, String, Option, none, some}
use ai_risk_engine.Workflow.Compliance.{ComplianceState}
use ai_risk_engine.Workflow.Services.{WorkflowStateStore}
use ai_risk_engine.Workflow.State.{RiskState}

pub record RedisWorkflowStateStore (W : Type 0) : Type 0 where
  pub redis : Cache W
  pub prefix : String
  pub dump_risk : RiskState → String
  pub load_risk : String → Result RiskState
  pub dump_compliance : ComplianceState → String
  pub load_compliance : String → Result ComplianceState

-- The default of `ttl_seconds`.
abbrev pub state_ttl : ℕ
state_ttl = 3600

-- `if raw is None: return None`, else the state that the text stands for.
abbrev pub parsed : {W S : Type 0} → (String → Result S) → Option String → Exec W (Option S)
parsed load none = pure none
parsed load (some raw) = do state ← lift (load raw); pure (some state)

module _ {W : Type 0} (store : RedisWorkflowStateStore W) where
  open store use {redis, prefix}

  -- `_key`
  unfoldable pub key : String → String
  key event_id = prefix ++ (":" ++ event_id)

  -- `_compliance_key`
  unfoldable pub compliance_key : String → String
  compliance_key event_id = prefix ++ (":compliance:" ++ event_id)

  unfoldable pub get_risk_state : String → Exec W (Option RiskState)
  unfolding pure lift ◌>>=◌
  get_risk_state event_id = do raw ← redis.get_cache (key event_id); parsed store.load_risk raw

  unfoldable pub set_risk_state : String → RiskState → ℕ → Exec W (Unit {0})
  set_risk_state event_id state ttl_seconds =
      redis.set_cache (key event_id) (store.dump_risk state) ttl_seconds

  unfoldable pub get_compliance_state : String → Exec W (Option ComplianceState)
  unfolding pure lift ◌>>=◌
  get_compliance_state event_id = do
    raw ← redis.get_cache (compliance_key event_id)
    parsed store.load_compliance raw

  unfoldable pub set_compliance_state : String → ComplianceState → ℕ → Exec W (Unit {0})
  set_compliance_state event_id state ttl_seconds =
      redis.set_cache (compliance_key event_id) (store.dump_compliance state) ttl_seconds

  -- The class as the protocols of the two workflows.
  abbrev pub risk_store : WorkflowStateStore W RiskState
  risk_store = record {
    get_state = get_risk_state;
    set_state = λ event_id state. set_risk_state event_id state state_ttl;
  }

  abbrev pub compliance_store : WorkflowStateStore W ComplianceState
  compliance_store = record {
    get_state = get_compliance_state;
    set_state = λ event_id state. set_compliance_state event_id state state_ttl;
  }
