-- ===== src/Tests/Domain.antt =====
-- Witnesses for the theorems on app/domain and on tenants.
use ai_risk_engine.Domain.Event.{
  EventStatus, received, validated, processing, approved, BaseEvent, validate_transition,
  transition_to, contains, status_transitions,
}
use ai_risk_engine.Domain.Lifecycle.{attempt, attempt_all, approved_only_by_path}
use ai_risk_engine.Domain.Requests.{
  RiskEventCreateRequest, risk_accepts, score_accepts, metadata_accepts,
}
use ai_risk_engine.Exec.{ok, catch, ◌>>=◌, pure, lift}
use ai_risk_engine.Json.{Fields, end}
use ai_risk_engine.Prelude.{◌≡◌, refl, inl, Bool, true, String, none, some, List, [], ◌∷◌}
use ai_risk_engine.Prelude.Int.{ℤ, whole}

abbrev event : EventStatus → BaseEvent
event s = record {
  event_id = "e1";
  tenant_id = "t1";
  status = s;
  created_at = "2026-01-01";
  metadata = none;
}

-- A call that is refused in between.
abbrev asked : List EventStatus
asked = validated ∷ approved ∷ processing ∷ approved ∷ []

asked-approves : (attempt_all asked (event received)).1.status ≡ approved
unfolding attempt_all attempt catch transition_to validate_transition contains status_transitions
    lift pure ◌>>=◌
asked-approves = refl

approved_only_by_path_example :
    (attempt_all asked (event received)).0 ≡ ok (validated ∷ processing ∷ approved ∷ [])
approved_only_by_path_example =
    approved_only_by_path asked (event received) (inl refl) asked-approves

abbrev any_metadata : Fields → Bool
any_metadata d = true

abbrev no_digits : ℤ → String
no_digits x = ""

abbrev request : RiskEventCreateRequest
request = record {
  tenant_id = "t1";
  risk_score = some (whole 50);
  category = none;
  metadata = some end;
  version = " ";
}

request_accepted : risk_accepts any_metadata request ≡ true
unfolding risk_accepts score_accepts metadata_accepts
request_accepted = refl
