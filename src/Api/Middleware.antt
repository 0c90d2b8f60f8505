-- ===== src/Api/Middleware.antt =====
-- app/api/middleware.py, with the context variables of app/core/context.py. `request.state` and the
-- context variables are mutable and stand in the state `Scope` of a request, beside the world of the
-- services; the audit line that is logged is kept there too, the newest first. `uuid4` is the argument
-- `drawn`.
use ai_risk_engine.Domain.Requests.{EventResponse}
use ai_risk_engine.Exec.{Exec, ok, pure, ◌>>=◌, ◌>>◌}
use ai_risk_engine.Prelude.{
  strip, ℕ, Bool, true, String, Option, none, some, List, ◌∷◌, Table, if◌then◌else◌, is_empty,
  is_blank,
}

-- What of a request the middleware reads: the headers `X-Tenant-ID` and `X-Correlation-ID`.
pub record Request : Type 0 where
  pub method : String
  pub path : String
  pub tenant_header : Option String
  pub correlation_header : Option String

-- `request.state`
pub record RequestState : Type 0 where
  pub tenant_id : Option String
  pub correlation_id : Option String

pub record AuditEvent : Type 0 where
  pub correlation_id : Option String
  pub tenant_id : Option String
  pub path : String
  pub method : String
  pub status_code : ℕ

pub record Scope (W : Type 0) : Type 0 where
  pub world : W
  pub state : RequestState
  pub correlation_id_ctx : Option String
  pub tenant_id_ctx : Option String
  pub logged : List AuditEvent

-- `{"detail": …}`, an event, or another dictionary of texts.
pub data Content : Type 0 where
  detail : String → Content
  event : EventResponse → Content
  texts : Table String → Content

pub record Response : Type 0 where
  pub status_code : ℕ
  pub content : Content
  pub correlation_header : Option String

abbrev pub json_response : ℕ → Content → Response
json_response status_code content = record {
  status_code = status_code;
  content = content;
  correlation_header = none;
}

-- The header, or else what `uuid4` draws.
abbrev pub correlation_id_of : Option String → String → String
correlation_id_of none drawn = drawn
correlation_id_of (some header) drawn = if is_empty header then drawn else header

-- `not tenant_id or not tenant_id.strip()`
abbrev pub is_missing : Option String → Bool
is_missing none = true
is_missing (some tenant_id) = is_blank tenant_id

-- `audit_event`
abbrev pub audit_event : Request → RequestState → Response → AuditEvent
audit_event request state response = record {
  correlation_id = state.correlation_id;
  tenant_id = state.tenant_id;
  path = request.path;
  method = request.method;
  status_code = response.status_code;
}

module _ {W : Type 0} where
  abbrev pub modify : (Scope W → Scope W) → Exec (Scope W) (Unit {0})
  modify change s = (ok tt, change s)

  abbrev pub scope : Exec (Scope W) (Scope W)
  scope s = (ok s, s)

  abbrev pub set_correlation_id : String → Scope W → Scope W
  set_correlation_id correlation_id s = record s {
    state = record s.state { correlation_id = some correlation_id };
    correlation_id_ctx = some correlation_id;
  }

  abbrev pub set_tenant_id : String → Scope W → Scope W
  set_tenant_id tenant_id s = record s {
    state = record s.state { tenant_id = some tenant_id };
    tenant_id_ctx = some tenant_id;
  }

  -- `CorrelationIdMiddleware.dispatch`
  unfoldable pub with_correlation_id :
      String → Request → Exec (Scope W) Response → Exec (Scope W) Response
  unfolding pure ◌>>=◌
  with_correlation_id drawn request call_next = do
    let correlation_id = correlation_id_of request.correlation_header drawn
    modify (set_correlation_id correlation_id)
    response ← call_next
    pure (record response { correlation_header = some correlation_id })

  -- `TenantContextMiddleware.dispatch` on the header.
  unfoldable pub with_tenant_id : Option String → Exec (Scope W) Response → Exec (Scope W) Response
  unfolding pure ◌>>=◌ strip
  with_tenant_id none call_next = pure (json_response 400 (detail "X-Tenant-ID header is required"))
  with_tenant_id (some tenant_id) call_next =
      if is_blank tenant_id
      then pure (json_response 400 (detail "X-Tenant-ID header is required"))
      else (do modify (set_tenant_id (strip tenant_id)); call_next)

  -- `AuditTriggerMiddleware.dispatch`
  unfoldable pub with_audit : Request → Exec (Scope W) Response → Exec (Scope W) Response
  unfolding pure ◌>>=◌
  with_audit request call_next = do
    response ← call_next
    modify (λ s. record s { logged = audit_event request s.state response ∷ s.logged })
    pure response
