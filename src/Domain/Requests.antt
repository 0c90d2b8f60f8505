-- ===== src/Domain/Requests.antt =====
-- app/domain/schemas/event.py: the request and response schemas. The checks that the schemas
-- declare (`min_length`, `ge`, `le` and the metadata validator) are run by pydantic; `accepts` says
-- for which field values they pass. Whether `json.dumps` accepts a dictionary is a parameter.
use ai_risk_engine.Domain.Event.{EventStatus}
use ai_risk_engine.Json.{Fields}
use ai_risk_engine.Prelude.{Bool, true, not, ◌&&◌, String, Option, none, some, is_empty}
use ai_risk_engine.Prelude.Int.{ℤ, leb_ℤ, whole}

pub record RiskEventCreateRequest : Type 0 where
  pub tenant_id : String
  pub risk_score : Option ℤ
  pub category : Option String
  pub metadata : Option Fields
  pub version : String

pub record ComplianceEventCreateRequest : Type 0 where
  pub tenant_id : String
  pub regulation_ref : Option String
  pub compliance_type : Option String
  pub metadata : Option Fields
  pub version : String

pub record EventResponse : Type 0 where
  pub event_id : String
  pub tenant_id : String
  pub status : EventStatus
  pub created_at : String
  pub metadata : Option Fields
  pub version : String

-- `ge=0.0, le=100.0` on an optional field
unfoldable pub score_accepts : Option ℤ → Bool
score_accepts none = true
score_accepts (some x) = leb_ℤ (whole 0) x && leb_ℤ x (whole 100)

module _ (serializable : Fields → Bool) where
  -- `metadata_must_be_json_serializable`
  unfoldable pub metadata_accepts : Option Fields → Bool
  metadata_accepts none = true
  metadata_accepts (some d) = serializable d

  unfoldable pub risk_accepts : RiskEventCreateRequest → Bool
  unfolding score_accepts metadata_accepts
  risk_accepts r =
      not (is_empty r.tenant_id)
      && score_accepts r.risk_score
      && metadata_accepts r.metadata
      && not (is_empty r.version)

  unfoldable pub compliance_accepts : ComplianceEventCreateRequest → Bool
  unfolding metadata_accepts
  compliance_accepts r =
      not (is_empty r.tenant_id) && metadata_accepts r.metadata && not (is_empty r.version)
