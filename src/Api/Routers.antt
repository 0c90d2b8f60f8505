-- ===== src/Api/Routers.antt =====
-- app/api/routers/risk.py and app/api/routers/compliance.py, whose handlers do what the one of
-- app/api/routers/events.py does on a body of the one or the other kind, line by line.
use ai_risk_engine.Api.Events.{Reply, risk_body, compliance_body, create_event}
use ai_risk_engine.Application.EventService.{EventServices}
use ai_risk_engine.Domain.Requests.{RiskEventCreateRequest, ComplianceEventCreateRequest}
use ai_risk_engine.Exec.{Exec}
use ai_risk_engine.Json.{Fields}
use ai_risk_engine.Prelude.{Bool, String, Option}
use ai_risk_engine.Prelude.Int.{ℤ}

module _ {W : Type 0} (services : EventServices W) (serializable : Fields → Bool)
    (float_str : ℤ → String) where
  abbrev pub create_risk_event :
      Option String → String → String → String → String → RiskEventCreateRequest → Exec W Reply
  create_risk_event x_idempotency_key event_id now tenant_id correlation_id body =
      create_event services serializable float_str x_idempotency_key event_id now tenant_id
        correlation_id (risk_body body)

  abbrev pub create_compliance_event :
      Option String
      → String
      → String
      → String
      → String
      → ComplianceEventCreateRequest
      → Exec W Reply
  create_compliance_event x_idempotency_key event_id now tenant_id correlation_id body =
      create_event services serializable float_str x_idempotency_key event_id now tenant_id
        correlation_id (compliance_body body)
