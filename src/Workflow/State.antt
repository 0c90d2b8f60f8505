-- ===== src/Workflow/State.antt =====
-- app/workflows/langgraph/state_models.py. `transition` is an update of the record; the copies it
-- makes share nothing with the original, so no aliasing is modelled.
use ai_risk_engine.Json.{Value, Fields, get, equals_text}
use ai_risk_engine.Prelude.{ℕ, Bool, false, ◌||◌, String, Option, none, some, List, [], ◌∷◌}
use ai_risk_engine.Prelude.Int.{ℤ}

pub record RiskState : Type 0 where
  pub event_id : String
  pub tenant_id : String
  pub correlation_id : String
  pub raw_event : Fields
  pub retrieved_context : Option String
  pub policy_result : Option String
  pub risk_score : Option ℤ
  pub guardrail_result : Option String
  pub final_decision : Option String
  pub model_version : String
  pub prompt_version : ℕ
  pub audit_trail : List Fields
  pub idempotency_key : Option String
  pub evaluation_result : Option Fields

abbrev entry_is : Option Value → String → Bool
entry_is none node = false
entry_is (some v) node = equals_text v node

-- `any(e.get("node") == node for e in audit_trail)`
unfoldable pub trail_has : String → List Fields → Bool
trail_has node [] = false
trail_has node (e ∷ es) = entry_is (get "node" e) node || trail_has node es

-- `_node_done`
unfoldable pub node_done : RiskState → String → Bool
unfolding trail_has
node_done state node = trail_has node state.audit_trail
