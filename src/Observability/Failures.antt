-- ===== src/Observability/Failures.antt =====
-- app/observability/failure_classifier.py, and the exception handlers of app/main.py.
use ai_risk_engine.Errors.{
  ErrorClass, base, code_of, domain_error, domain_validation_error, invalid_status_transition_error,
  invalid_tenant_error, risk_threshold_violation_error, invalid_metadata_error, application_error,
  idempotency_conflict_error, messaging_failure_error, governance_error, model_not_approved_error,
  invalid_model_state_error, invalid_workflow_state_error, prompt_not_approved_error,
  security_error, authorization_error, tenant_isolation_error, encryption_error, value_error,
  runtime_error, attribute_error, exception,
}
use ai_risk_engine.Prelude.{
  ℕ, ◌≡◌, refl, Bool, false, ◌&&◌, ◌||◌, String, none, some, List, [], ◌∷◌, if◌then◌else◌, leb,
}

-- The class, its base and the base of that: no class of the program is deeper.
unfoldable pub mro : ErrorClass → List ErrorClass
unfolding base
mro c = c ∷ elim (base c) [ none ↦ [] | some b ↦ b ∷ elim (base b) [ none ↦ [] | some d ↦ d ∷ [] ] ]

abbrev same_class : ErrorClass → ErrorClass → Bool
unfolding code_of
same_class c d = leb (code_of c) (code_of d) && leb (code_of d) (code_of c)

abbrev mem_class : ErrorClass → List ErrorClass → Bool
mem_class c [] = false
mem_class c (d ∷ ds) = same_class c d || mem_class c ds

-- `isinstance(e, (C, …))` for an exception `e` of the given class.
unfoldable pub isinstance : ErrorClass → List ErrorClass → Bool
unfolding mro code_of
isinstance c [] = false
isinstance c (d ∷ ds) = mem_class d (mro c) || isinstance c ds

pub data FailureCategory : Type 0 where
  validation_error policy_violation high_risk workflow_error infra_error : FailureCategory
  unexpected_error : FailureCategory

-- `FailureClassifier.classify`
unfoldable pub classify : ErrorClass → FailureCategory
unfolding isinstance
classify c =
    if isinstance c (domain_validation_error ∷ [])
    then validation_error
    else if isinstance c (invalid_tenant_error ∷ invalid_metadata_error ∷ [])
    then validation_error
    else if isinstance c (risk_threshold_violation_error ∷ [])
    then high_risk
    else if isinstance c
        (model_not_approved_error ∷ prompt_not_approved_error ∷ invalid_model_state_error ∷ [])
    then policy_violation
    else if isinstance c (invalid_workflow_state_error ∷ invalid_status_transition_error ∷ [])
    then workflow_error
    else if isinstance c (authorization_error ∷ tenant_isolation_error ∷ [])
    then policy_violation
    else if isinstance c (encryption_error ∷ security_error ∷ [])
    then infra_error
    else if isinstance c (idempotency_conflict_error ∷ application_error ∷ [])
    then workflow_error
    else if isinstance c (governance_error ∷ [])
    then policy_violation
    else if isinstance c (domain_error ∷ [])
    then validation_error
    else unexpected_error

-- The taxonomy, class by class.
abbrev pub taxonomy : ErrorClass → FailureCategory
taxonomy domain_error = validation_error
taxonomy domain_validation_error = validation_error
taxonomy invalid_tenant_error = validation_error
taxonomy invalid_metadata_error = validation_error
taxonomy risk_threshold_violation_error = high_risk
taxonomy invalid_status_transition_error = workflow_error
taxonomy invalid_workflow_state_error = workflow_error
taxonomy application_error = workflow_error
taxonomy idempotency_conflict_error = workflow_error
taxonomy messaging_failure_error = workflow_error
taxonomy governance_error = policy_violation
taxonomy model_not_approved_error = policy_violation
taxonomy prompt_not_approved_error = policy_violation
taxonomy invalid_model_state_error = policy_violation
taxonomy authorization_error = policy_violation
taxonomy tenant_isolation_error = policy_violation
taxonomy security_error = infra_error
taxonomy encryption_error = infra_error
taxonomy value_error = unexpected_error
taxonomy runtime_error = unexpected_error
taxonomy attribute_error = unexpected_error
taxonomy exception = unexpected_error

-- The ladder of `isinstance` tests puts every exception class into the category that the taxonomy
-- names for it: no earlier, more general test catches a class that a later one is meant for.
pub classify-eq-taxonomy : (c : ErrorClass) → classify c ≡ taxonomy c
unfolding classify
classify-eq-taxonomy domain_error = refl
classify-eq-taxonomy _ = refl

-- The handlers that app/main.py registers, the most derived first, as Starlette looks them up.
unfoldable pub http_status : ErrorClass → ℕ
unfolding isinstance
http_status c =
    if isinstance c (domain_validation_error ∷ [])
    then 422
    else if isinstance c (domain_error ∷ [])
    then 400
    else if isinstance c (messaging_failure_error ∷ [])
    then 503
    else 500

-- `.value`
unfoldable pub category_value : FailureCategory → String
category_value validation_error = "VALIDATION_ERROR"
category_value policy_violation = "POLICY_VIOLATION"
category_value high_risk = "HIGH_RISK"
category_value workflow_error = "WORKFLOW_ERROR"
category_value infra_error = "INFRA_ERROR"
category_value unexpected_error = "UNEXPECTED_ERROR"
