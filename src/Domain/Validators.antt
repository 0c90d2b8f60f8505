-- ===== src/Domain/Validators.antt =====
-- app/domain/validators/event_validator.py. Whether `json.dumps` accepts a dictionary, and how
-- Python prints a float in a message, are parameters.
use Prim.Native.String.{◌++◌}
use ai_risk_engine.Domain.Event.{
  EventStatus, received, created, validated, processing, approved, rejected, failed, status_value,
  contains, validate_transition, BaseEvent,
}
use ai_risk_engine.Domain.Requests.{
  RiskEventCreateRequest, ComplianceEventCreateRequest, risk_accepts,
}
use ai_risk_engine.Errors.{
  domain_validation_error, invalid_tenant_error, risk_threshold_violation_error,
  invalid_metadata_error, invalid_status_transition_error,
}
use ai_risk_engine.Exec.{Result, ok, fail_if, ◌and_then◌}
use ai_risk_engine.Json.{Fields}
use ai_risk_engine.Prelude.{
  ◌≡◌, Bool, true, false, not, ◌&&◌, ◌||◌, String, Option, none, some, List, [], ◌∷◌, arith,
  is_empty, is_blank, not-empty_of_not-blank, Option-cases, inl, inr,
}
use ai_risk_engine.Prelude.Int.{ℤ, leb_ℤ, ◌≤ℤ◌, whole}

-- `validate_tenant_id`
unfoldable pub validate_tenant_id : String → Result (Unit {0})
validate_tenant_id tenant_id =
    fail_if (is_empty tenant_id || is_blank tenant_id) invalid_tenant_error
      "tenant_id must not be empty"

-- `_allowed_transitions`, the validator's own copy of the table.
unfoldable pub allowed_transitions : EventStatus → List EventStatus
allowed_transitions received = validated ∷ rejected ∷ []
allowed_transitions created = validated ∷ rejected ∷ []
allowed_transitions validated = processing ∷ []
allowed_transitions processing = approved ∷ rejected ∷ failed ∷ []
allowed_transitions approved = []
allowed_transitions rejected = []
allowed_transitions failed = []

-- `validate_status_transition`
unfoldable pub validate_status_transition : EventStatus → EventStatus → Result (Unit {0})
unfolding allowed_transitions contains
validate_status_transition current new =
    fail_if (not (contains (allowed_transitions current) new)) invalid_status_transition_error
      ("Invalid status transition from " ++ status_value current ++ " to " ++ status_value new)

-- The validator and the event class accept the same changes of status, with the same error.
pub validate_status_transition-eq-validate_transition :
    (s t : EventStatus) → validate_status_transition s t ≡ validate_transition s t
unfolding validate_status_transition validate_transition
validate_status_transition-eq-validate_transition received t = ground arith
validate_status_transition-eq-validate_transition _ t = ground arith

-- `RISK_SCORE_MIN`, `RISK_SCORE_MAX`
abbrev pub risk_score_min : ℤ
risk_score_min = whole 0

abbrev pub risk_score_max : ℤ
risk_score_max = whole 100

-- `not request.version or not request.version.strip()`
unfoldable pub validate_version : String → Result (Unit {0})
validate_version version =
    fail_if (is_empty version || is_blank version) domain_validation_error
      "version must be set and non-empty"

module _ (serializable : Fields → Bool) (float_str : ℤ → String) where
  -- `validate_risk_score`
  unfoldable pub validate_risk_score : Option ℤ → Result (Unit {0})
  validate_risk_score none = ok tt
  validate_risk_score (some x) =
      fail_if (not (leb_ℤ risk_score_min x && leb_ℤ x risk_score_max))
        risk_threshold_violation_error ("risk_score must be between 0 and 100, got " ++ float_str x)

  -- `validate_metadata_json_serializable`
  unfoldable pub validate_metadata_json_serializable : Option Fields → Result (Unit {0})
  validate_metadata_json_serializable none = ok tt
  validate_metadata_json_serializable (some d) =
      fail_if (not (serializable d)) invalid_metadata_error "metadata must be JSON-serializable"

  -- `validate_risk_event_create_request`
  unfoldable pub validate_risk_event_create_request : RiskEventCreateRequest → Result (Unit {0})
  unfolding validate_tenant_id validate_risk_score validate_metadata_json_serializable
      validate_version
  validate_risk_event_create_request request =
      validate_tenant_id request.tenant_id
      and_then validate_risk_score request.risk_score
      and_then validate_metadata_json_serializable request.metadata
      and_then validate_version request.version

  -- `validate_compliance_event_create_request`
  unfoldable pub validate_compliance_event_create_request :
      ComplianceEventCreateRequest → Result (Unit {0})
  unfolding validate_tenant_id validate_metadata_json_serializable validate_version
  validate_compliance_event_create_request request =
      validate_tenant_id request.tenant_id
      and_then validate_metadata_json_serializable request.metadata
      and_then validate_version request.version

  -- `validate_risk_event`
  unfoldable pub validate_risk_event : BaseEvent → Option ℤ → Result (Unit {0})
  unfolding validate_tenant_id validate_risk_score
  validate_risk_event entity risk_score =
      validate_tenant_id entity.tenant_id and_then validate_risk_score risk_score

  -- `validate_compliance_event`
  unfoldable pub validate_compliance_event : BaseEvent → Result (Unit {0})
  unfolding validate_tenant_id
  validate_compliance_event entity = validate_tenant_id entity.tenant_id

  -- What a valid risk request is, told without the code.
  pub record IsValidRiskRequest (r : RiskEventCreateRequest) : Type 0 where
    pub tenant : is_blank r.tenant_id ≡ false
    pub score : (x : ℤ) → r.risk_score ≡ some x → (risk_score_min ≤ℤ x) × (x ≤ℤ risk_score_max)
    pub metadata : (d : Fields) → r.metadata ≡ some d → serializable d ≡ true
    pub version : is_blank r.version ≡ false

  validators_pass :
      (r : RiskEventCreateRequest)
      → IsValidRiskRequest r
      → validate_risk_event_create_request r ≡ ok tt
  unfolding validate_risk_event_create_request
  validators_pass r v =
      let tenant = not-empty_of_not-blank r.tenant_id v.tenant in
      let version = not-empty_of_not-blank r.version v.version in
      elim (Option-cases r.risk_score) [
        | inl e ↦ elim (Option-cases r.metadata) [
          | inl e' ↦ ground (arith, tenant, version)
          | inr (d, e') ↦ ground (arith, tenant, version, v.metadata d e')
        ]
        | inr (x, e) ↦ elim (Option-cases r.metadata) [
          | inl e' ↦ ground (arith, tenant, version, v.score x e)
          | inr (d, e') ↦ ground (arith, tenant, version, v.score x e, v.metadata d e')
        ]
      ]

  -- A risk request passes exactly if its tenant and version are not blank, its score, where there is
  -- one, lies between 0 and 100, and its metadata, where there are any, can be written as JSON.
  pub validate_risk_event_create_request_iff :
      (r : RiskEventCreateRequest)
      → (validate_risk_event_create_request r ≡ ok tt → IsValidRiskRequest r)
        × (IsValidRiskRequest r → validate_risk_event_create_request r ≡ ok tt)
  unfolding validate_risk_event_create_request
  validate_risk_event_create_request_iff r = (
    λ h. record {
      tenant = ground arith;
      score = λ x e. ground arith;
      metadata = λ d e. ground arith;
      version = ground arith;
    },
    λ v. validators_pass r v,
  )

  -- For a request that the schema accepts, the validators can only object to a tenant or a version
  -- of nothing but white space, in this order; the other two checks repeat the schema's.
  pub validate_after_schema :
      (r : RiskEventCreateRequest)
      → risk_accepts serializable r ≡ true
      → validate_risk_event_create_request r ≡ (
          fail_if (is_blank r.tenant_id) invalid_tenant_error "tenant_id must not be empty"
          and_then fail_if
              (is_blank r.version)
              domain_validation_error
              "version must be set and non-empty")
  unfolding validate_risk_event_create_request risk_accepts
  validate_after_schema r h = ground arith
