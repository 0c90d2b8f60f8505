-- ===== src/Api/App.antt =====
-- app/main.py and the routers of health and tenants, app/api/routers/health.py and
-- app/api/routers/tenant.py. Which handler a request is for, its parsed body and what FastAPI injects
-- is the value `Endpoint`. Starlette runs the middleware in the order of the comment there, the
-- handlers of the named exception classes inside of it, and the one of `Exception` around it.
pub mod Isolation
pub mod Layers
pub mod Served
pub mod Writes
use ai_risk_engine.Api.Dependencies.{get_tenant_id, get_correlation_id, attribute_or_raise}
use ai_risk_engine.Api.Events.{Body, Reply, replied, refused, create_event, get_event}
use ai_risk_engine.Api.Middleware.{
  Request, Scope, Content, detail, event, texts, Response, json_response, modify, scope,
  with_correlation_id, with_tenant_id, with_audit,
}
use ai_risk_engine.Api.Routers.{create_risk_event, create_compliance_event}
use ai_risk_engine.Application.EventService.{EventServices}
use ai_risk_engine.Domain.Requests.{RiskEventCreateRequest, ComplianceEventCreateRequest}
use ai_risk_engine.Errors.{Error, ErrorClass, domain_error, application_error}
use ai_risk_engine.Exec.{Exec, pure, throw, catch, ◌>>=◌, ◌>>◌}
use ai_risk_engine.Json.{Fields}
use ai_risk_engine.Observability.Failures.{isinstance, http_status}
use ai_risk_engine.Prelude.{ℕ, Bool, String, Option, none, some, [], ◌∷◌, Table, if◌then◌else◌}
use ai_risk_engine.Prelude.Int.{ℤ}

-- The routes; the option is the header `X-Idempotency-Key`.
pub data Endpoint : Type 0 where
  get_health get_tenant_context : Endpoint
  post_event : Option String → Body → Endpoint
  get_event_by_id : String → Endpoint
  post_risk : Option String → RiskEventCreateRequest → Endpoint
  post_compliance : Option String → ComplianceEventCreateRequest → Endpoint

-- What `uuid4` and the clock give while the request is served.
pub record Drawn : Type 0 where
  pub correlation_id : String
  pub event_id : String
  pub now : String

pub record Settings : Type 0 where
  pub environment : String
  pub version : String

abbrev pub response_of : Reply → Response
response_of (replied e) = json_response 200 (event e)
response_of (refused status_code d) = json_response status_code (detail d)

-- The classes below `Exception` that main.py registers a handler for.
abbrev pub is_registered : ErrorClass → Bool
is_registered c = isinstance c (domain_error ∷ application_error ∷ [])

abbrev pub internal_error : Response
internal_error = json_response 500 (detail "Internal server error")

module _ {W : Type 0} where
  -- A call of the services in a handler.
  abbrev pub on_world : {A : Type 0} → Exec W A → Exec (Scope W) A
  on_world call s = let (r, w) = call s.world in (r, record s { world = w })

  -- The handlers that main.py registers.
  unfoldable pub handle_error : Error → Exec (Scope W) Response
  unfolding pure throw
  handle_error e =
      if is_registered e.cls
      then pure (json_response (http_status e.cls) (detail e.message))
      else throw e

  unfoldable pub unexpected_error_handler : Error → Exec (Scope W) Response
  unfolding pure
  unexpected_error_handler e = pure internal_error

module _ {W : Type 0} (services : EventServices W) (serializable : Fields → Bool)
    (float_str : ℤ → String) (settings : Settings) (drawn : Drawn) where
  -- A POST handler with the dependencies that it is given.
  unfoldable pub post : (String → String → Exec W Reply) → Exec (Scope W) Response
  unfolding pure ◌>>=◌ get_tenant_id get_correlation_id
  post handler = do
    tenant_id ← get_tenant_id
    correlation_id ← get_correlation_id
    reply ← on_world (handler tenant_id correlation_id)
    pure (response_of reply)

  -- `health`
  unfoldable pub health : Exec (Scope W) Response
  unfolding pure ◌>>=◌ attribute_or_raise
  health = do
    s ← scope
    tenant_id ← attribute_or_raise "tenant_id" s.state.tenant_id
    correlation_id ← attribute_or_raise "correlation_id" s.state.correlation_id
    pure (
        json_response 200 (
          texts (
            ("status", "ok")
            ∷ ("tenant_id", tenant_id)
            ∷ ("correlation_id", correlation_id)
            ∷ ("environment", settings.environment)
            ∷ ("version", settings.version)
            ∷ [])))

  -- `tenant_context`
  unfoldable pub tenant_context : Exec (Scope W) Response
  unfolding pure ◌>>=◌ attribute_or_raise
  tenant_context = do
    s ← scope
    tenant_id ← attribute_or_raise "tenant_id" s.state.tenant_id
    correlation_id ← attribute_or_raise "correlation_id" s.state.correlation_id
    pure (
        json_response 200
          (texts (("tenant_id", tenant_id) ∷ ("correlation_id", correlation_id) ∷ [])))

  unfoldable pub route : Endpoint → Exec (Scope W) Response
  unfolding pure ◌>>=◌ get_tenant_id post health tenant_context
  route get_health = health
  route get_tenant_context = tenant_context
  route (post_event key body) = post λ tenant_id correlation_id.
      create_event services serializable float_str key drawn.event_id drawn.now tenant_id
        correlation_id body
  route (get_event_by_id event_id) = do
    tenant_id ← get_tenant_id
    reply ← on_world (get_event services serializable float_str tenant_id event_id)
    pure (response_of reply)
  route (post_risk key body) = post λ tenant_id correlation_id.
      create_risk_event services serializable float_str key drawn.event_id drawn.now tenant_id
        correlation_id body
  route (post_compliance key body) = post λ tenant_id correlation_id.
      create_compliance_event services serializable float_str key drawn.event_id drawn.now tenant_id
        correlation_id body

  -- What runs inside the middleware.
  unfoldable pub handled : Endpoint → Exec (Scope W) Response
  unfolding catch handle_error route
  handled endpoint = catch (route endpoint) handle_error

  -- The application on one request.
  unfoldable pub serve : Request → Endpoint → Exec (Scope W) Response
  unfolding catch with_correlation_id with_tenant_id with_audit handled unexpected_error_handler
  serve request endpoint =
      catch
        (with_correlation_id drawn.correlation_id request
          (with_tenant_id request.tenant_header (with_audit request (handled endpoint))))
        unexpected_error_handler
