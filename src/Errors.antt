-- ===== src/Errors.antt =====
-- The exceptions of the program: app/domain/exceptions.py, app/application/exceptions.py,
-- app/governance/exceptions.py and app/security/exceptions.py, with the built-in classes that the
-- modelled code raises. An exception is its class and its message.
use ai_risk_engine.Prelude.{ℕ, String, Option, none, some}

-- `exception` stands for every other class below Python's `Exception`.
pub data ErrorClass : Type 0 where
  domain_error domain_validation_error invalid_status_transition_error : ErrorClass
  invalid_tenant_error risk_threshold_violation_error invalid_metadata_error : ErrorClass
  application_error idempotency_conflict_error messaging_failure_error : ErrorClass
  governance_error model_not_approved_error invalid_model_state_error : ErrorClass
  invalid_workflow_state_error prompt_not_approved_error : ErrorClass
  security_error authorization_error tenant_isolation_error encryption_error : ErrorClass
  value_error runtime_error attribute_error exception : ErrorClass

pub record Error : Type 0 where
  pub cls : ErrorClass
  pub message : String

-- The base class that a `class` statement names.
unfoldable pub base : ErrorClass → Option ErrorClass
base domain_validation_error = some domain_error
base invalid_status_transition_error = some domain_error
base invalid_tenant_error = some domain_error
base risk_threshold_violation_error = some domain_error
base invalid_metadata_error = some domain_error
base idempotency_conflict_error = some application_error
base messaging_failure_error = some application_error
base model_not_approved_error = some governance_error
base invalid_model_state_error = some governance_error
base invalid_workflow_state_error = some governance_error
base prompt_not_approved_error = some governance_error
base authorization_error = some security_error
base tenant_isolation_error = some security_error
base encryption_error = some security_error
base exception = none
base _ = some exception

unfoldable pub code_of : ErrorClass → ℕ
code_of domain_error = 0
code_of domain_validation_error = 1
code_of invalid_status_transition_error = 2
code_of invalid_tenant_error = 3
code_of risk_threshold_violation_error = 4
code_of invalid_metadata_error = 5
code_of application_error = 6
code_of idempotency_conflict_error = 7
code_of messaging_failure_error = 8
code_of governance_error = 9
code_of model_not_approved_error = 10
code_of invalid_model_state_error = 11
code_of invalid_workflow_state_error = 12
code_of prompt_not_approved_error = 13
code_of security_error = 14
code_of authorization_error = 15
code_of tenant_isolation_error = 16
code_of encryption_error = 17
code_of value_error = 18
code_of runtime_error = 19
code_of attribute_error = 20
code_of exception = 21
