-- ===== src/Domain/Event.antt =====
-- app/domain/models/event.py: the event classes and `transition_to`. A `datetime` is kept as the
-- text of its ISO form, which the modelled code never computes with.
use ai_risk_engine.Errors.{invalid_status_transition_error}
use ai_risk_engine.Exec.{Exec, Result, ok, err, lift, ◌>>=◌, ◌>>◌}
use ai_risk_engine.Json.{Fields}
use ai_risk_engine.Prelude.{Bool, true, false, ◌||◌, String, Option, List, [], ◌∷◌, if◌then◌else◌}
use ai_risk_engine.Prelude.Int.{ℤ}
use Prim.Native.String.{◌++◌}

pub data EventStatus : Type 0 where
  received created validated processing approved rejected failed : EventStatus

-- `.value`
unfoldable pub status_value : EventStatus → String
status_value received = "received"
status_value created = "created"
status_value validated = "validated"
status_value processing = "processing"
status_value approved = "approved"
status_value rejected = "rejected"
status_value failed = "failed"

-- Equality of two members of the enum.
abbrev pub same_status : EventStatus → EventStatus → Bool
same_status received received = true
same_status created created = true
same_status validated validated = true
same_status processing processing = true
same_status approved approved = true
same_status rejected rejected = true
same_status failed failed = true
same_status _ _ = false

-- `_STATUS_TRANSITIONS`
unfoldable pub status_transitions : EventStatus → List EventStatus
status_transitions received = validated ∷ rejected ∷ []
status_transitions created = validated ∷ rejected ∷ []
status_transitions validated = processing ∷ []
status_transitions processing = approved ∷ rejected ∷ failed ∷ []
status_transitions approved = []
status_transitions rejected = []
status_transitions failed = []

-- `new in allowed`
unfoldable pub contains : List EventStatus → EventStatus → Bool
contains [] t = false
contains (s ∷ ss) t = same_status t s || contains ss t

-- `_validate_transition`
unfoldable pub validate_transition : EventStatus → EventStatus → Result (Unit {0})
unfolding contains status_transitions
validate_transition current new =
    if contains (status_transitions current) new
    then ok tt
    else err (record {
      cls = invalid_status_transition_error;
      message =
          "Invalid status transition from " ++ status_value current ++ " to " ++ status_value new;
    })

pub record BaseEvent : Type 0 where
  pub event_id : String
  pub tenant_id : String
  pub status : EventStatus
  pub created_at : String
  pub metadata : Option Fields

-- The subclasses with their own fields; `plain` is an event of the base class itself.
pub data EventKind : Type 0 where
  plain : EventKind
  risk : Option ℤ → Option String → EventKind
  compliance : Option String → Option String → EventKind

pub record Event : Type 0 where
  pub fields : BaseEvent
  pub kind : EventKind

-- `type(event).__name__`
unfoldable pub event_type_name : EventKind → String
event_type_name plain = "BaseEvent"
event_type_name (risk _ _) = "RiskEvent"
event_type_name (compliance _ _) = "ComplianceEvent"

abbrev set_status : EventStatus → Exec BaseEvent (Unit {0})
set_status t e = (ok tt, record e { status = t })

abbrev status_of : Exec BaseEvent EventStatus
status_of e = (ok e.status, e)

-- `BaseEvent.transition_to`, a method that mutates its event.
unfoldable pub transition_to : EventStatus → Exec BaseEvent (Unit {0})
unfolding lift ◌>>=◌
transition_to new = do current ← status_of; lift (validate_transition current new); set_status new
