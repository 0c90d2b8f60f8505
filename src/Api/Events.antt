-- ===== src/Api/Events.antt =====
-- app/api/routers/events.py. What FastAPI does, parsing a body, injecting the dependencies and
-- writing a reply, is not modelled: the handlers take the parsed body, the header and what the
-- dependencies give. `uuid4` and the clock are the arguments `event_id` and `now`.
pub mod Replies
use ai_risk_engine.Application.EventService as Service
use ai_risk_engine.Application.EventService.{EventServices}
use ai_risk_engine.Domain.Event.{Event, created, risk, compliance}
use ai_risk_engine.Domain.Requests.{
  RiskEventCreateRequest, ComplianceEventCreateRequest, EventResponse,
}
use ai_risk_engine.Domain.Validators.{
  validate_risk_event_create_request, validate_compliance_event_create_request,
}
use ai_risk_engine.Errors.{
  Error, domain_error, domain_validation_error, application_error, messaging_failure_error,
}
use ai_risk_engine.Exec.{Exec, Result, pure, throw, lift, catch, ◌>>=◌, ◌>>◌}
use ai_risk_engine.Json.{Value, Fields, str, field, end, put}
use ai_risk_engine.Observability.Failures.{isinstance}
use ai_risk_engine.Prelude.{
  lstrip, rstrip, strip, ℕ, Bool, ◌&&◌, String, Option, none, some, [], ◌∷◌, if◌then◌else◌, ◌==◌,
  is_empty, is_blank, is_space,
}
use ai_risk_engine.Prelude.Int.{ℤ}
use Prim.Native.Char.{code}

pub data Body : Type 0 where
  risk_body : RiskEventCreateRequest → Body
  compliance_body : ComplianceEventCreateRequest → Body

-- A response with the event, or a JSON response with a status and a detail.
pub data Reply : Type 0 where
  replied : EventResponse → Reply
  refused : ℕ → String → Reply

-- `(req.metadata or {}).copy()`, with the version in it if there is one.
abbrev or_empty : Option Fields → Fields
or_empty none = end
or_empty (some metadata) = metadata

abbrev with_version : String → Fields → Fields
with_version version metadata =
    if is_empty version then metadata else put "version" (str version) metadata

-- `metadata or None`
abbrev or_none : Fields → Option Fields
or_none end = none
or_none (field k v fs) = some (field k v fs)

unfoldable pub metadata_for : Option Fields → String → Option Fields
unfolding put
metadata_for metadata version = or_none (with_version version (or_empty metadata))

module _ (event_id now tenant_id : String) where
  -- `_request_to_risk_event`
  unfoldable pub request_to_risk_event : RiskEventCreateRequest → Event
  unfolding metadata_for
  request_to_risk_event req = record {
    fields = record {
      event_id = event_id;
      tenant_id = tenant_id;
      status = created;
      created_at = now;
      metadata = metadata_for req.metadata req.version;
    };
    kind = risk req.risk_score req.category;
  }

  -- `_request_to_compliance_event`
  unfoldable pub request_to_compliance_event : ComplianceEventCreateRequest → Event
  unfolding metadata_for
  request_to_compliance_event req = record {
    fields = record {
      event_id = event_id;
      tenant_id = tenant_id;
      status = created;
      created_at = now;
      metadata = metadata_for req.metadata req.version;
    };
    kind = compliance req.regulation_ref req.compliance_type;
  }

  abbrev pub event_of : Body → Event
  event_of (risk_body req) = request_to_risk_event req
  event_of (compliance_body req) = request_to_compliance_event req

abbrev pub reply_of : Option EventResponse → Reply
reply_of none = refused 404 "Event not found"
reply_of (some event) = replied event

module _ {W : Type 0} (services : EventServices W) (serializable : Fields → Bool)
    (float_str : ℤ → String) where
  unfoldable pub validate_body : Body → Result (Unit {0})
  validate_body (risk_body req) = validate_risk_event_create_request serializable float_str req
  validate_body (compliance_body req) =
      validate_compliance_event_create_request serializable float_str req

  -- The `except` clauses around the service.
  unfoldable pub on_error : Error → Exec W Reply
  unfolding pure throw
  on_error e =
      if isinstance e.cls (domain_validation_error ∷ [])
      then pure (refused 422 e.message)
      else if isinstance e.cls (domain_error ∷ [])
      then pure (refused 400 e.message)
      else if isinstance e.cls (messaging_failure_error ∷ [])
      then pure (refused 503 e.message)
      else if isinstance e.cls (application_error ∷ [])
      then pure (refused 500 e.message)
      else throw e

  -- The handler with the key that the header gives.
  unfoldable pub create_with_key : String → String → String → String → String → Body → Exec W Reply
  unfolding pure lift catch ◌>>=◌
  create_with_key idempotency_key event_id now tenant_id correlation_id body = do
    lift (validate_body body)
    catch
        (do
          response ←
              Service.create_event services (event_of event_id now tenant_id body) tenant_id
                idempotency_key correlation_id
          pure (replied response))
        on_error

  -- `create_event`
  unfoldable pub create_event :
      Option String → String → String → String → String → Body → Exec W Reply
  unfolding pure strip
  create_event none event_id now tenant_id correlation_id body =
      pure (refused 400 "X-Idempotency-Key header is required")
  create_event (some x_idempotency_key) event_id now tenant_id correlation_id body =
      if is_blank x_idempotency_key
      then pure (refused 400 "X-Idempotency-Key header is required")
      else create_with_key (strip x_idempotency_key) event_id now tenant_id correlation_id body

  -- `get_event`
  unfoldable pub get_event : String → String → Exec W Reply
  unfolding pure ◌>>=◌
  get_event tenant_id event_id = do
    event ← Service.get_event services tenant_id event_id
    pure (reply_of event)
