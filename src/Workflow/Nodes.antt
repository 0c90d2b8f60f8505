-- ===== src/Workflow/Nodes.antt =====
-- The nodes of the risk workflow, app/workflows/langgraph/nodes. `str_of` is Python's `str` of a
-- value in an f-string. The log lines are not modelled.
pub mod Keeps
pub mod Specs
use Prim.Native.String.{◌++◌ as text_append}
use ai_risk_engine.Errors.{attribute_error}
use ai_risk_engine.Exec.{Exec, Result, ok, err, pure, lift, ◌>>=◌, ◌>>◌}
use ai_risk_engine.Governance.Audit.{AuditRecord, AuditLogger, utc_now, log_action, untimed}
use ai_risk_engine.Json.{
  Value, null, bool, int, float, str, list, dict, Fields, end, field, truthy, get, get_or,
  equals_text,
}
use ai_risk_engine.Prelude.{
  ℕ, Bool, true, false, ◌||◌, String, Option, none, some, List, [], ◌∷◌, ◌++◌, if◌then◌else◌, ◌==◌,
}
use ai_risk_engine.Prelude.Int.{ℤ, pos, leb_ℤ, whole}
use ai_risk_engine.Workflow.State.{RiskState}

-- What the code asks of its surroundings: the audit logger and `time.perf_counter`; of two of its
-- readings, `latency_ms` is `(end - start) * 1000` and `elapsed_ms` is that rounded to two places.
pub record NodeServices (W : Type 0) : Type 0 where
  pub audit : AuditLogger W
  pub perf : W → ℕ × W
  pub elapsed_ms : ℕ → ℕ → ℤ
  pub latency_ms : ℕ → ℕ → ℤ
  pub str_of : Value → String

-- The class name in the message of an AttributeError.
unfoldable pub type_name : Value → String
type_name null = "NoneType"
type_name (bool b) = "bool"
type_name (int n) = "int"
type_name (float x) = "float"
type_name (str s) = "str"
type_name (list vs) = "list"
type_name (dict fs) = "dict"

abbrev as_dict : Value → Result Fields
as_dict (dict fs) = ok fs
as_dict v = err (record {
  cls = attribute_error;
  message = text_append "'" (text_append (type_name v) "' object has no attribute 'get'");
})

-- `raw.get("metadata") or {}`, with the error that its `.get` raises if it is no dictionary.
unfoldable pub metadata_of : Fields → Result Fields
unfolding type_name
metadata_of raw = elim (get "metadata" raw) [
  | none ↦ ok end
  | some v ↦ if truthy v then as_dict v else ok end
]

abbrev pub with_metadata {ℓ} : {A : Type ℓ} → Result Fields → (Fields → A) → Result A
with_metadata (ok m) f = ok (f m)
with_metadata (err e) f = err e

-- The test of `validate_policy`.
unfoldable pub policy_of : Fields → Result String
unfolding metadata_of get_or truthy equals_text
policy_of raw = with_metadata (metadata_of raw) λ m.
    if truthy (get_or "policy_override" m (bool false))
      || equals_text (get_or "category" m (str "")) "sensitive"
    then "FAIL"
    else "PASS"

-- The ladder of `score_risk`; the metadata are looked into only behind its first test.
unfoldable pub score_of : Fields → Result ℤ
unfolding metadata_of get_or equals_text
score_of raw =
    let event_type = get_or "event_type" raw (str "standard") in
    if equals_text event_type "high_risk"
    then ok (whole 85)
    else with_metadata (metadata_of raw) λ m.
      if equals_text (get_or "category" m null) "sensitive"
      then whole 70
      else if equals_text event_type "low_risk"
      then whole 15
      else whole 30

-- `HIGH_RISK_THRESHOLD`
abbrev pub high_risk_threshold : ℤ
high_risk_threshold = whole 75

-- `(state.risk_score or 0.0) >= HIGH_RISK_THRESHOLD`
unfoldable pub is_over_threshold : Option ℤ → Bool
is_over_threshold none = leb_ℤ high_risk_threshold (whole 0)
is_over_threshold (some x) = leb_ℤ high_risk_threshold x

-- The test of `apply_guardrails`.
unfoldable pub guardrail_of : Fields → Option ℤ → Result String
unfolding metadata_of get_or truthy is_over_threshold
guardrail_of raw score = with_metadata (metadata_of raw) λ m.
    if truthy (get_or "blocked_pattern" m (bool false)) || is_over_threshold score
    then "VIOLATION"
    else "OK"

-- `x == "text"` for an optional text
unfoldable pub is_text : Option String → String → Bool
is_text none t = false
is_text (some s) t = s == t

-- The test of `make_decision`.
unfoldable pub decision_of : Option String → Option ℤ → Option String → String
unfolding is_text is_over_threshold
decision_of policy_result risk_score guardrail_result =
    if is_text policy_result "FAIL"
      || is_over_threshold risk_score
      || is_text guardrail_result "VIOLATION"
    then "REQUIRE_APPROVAL"
    else "APPROVED"

abbrev pub node_details : ℤ → Fields → RiskState → Fields
node_details execution_ms more state = field "model_version" (str state.model_version) (
    field "prompt_version" (int (pos state.prompt_version))
      (field "execution_ms" (float execution_ms) more))

abbrev pub trail_entry : String → String → String → Fields → Fields
trail_entry node action at details =
    field "node" (str node) (field "action" (str action) (field "at" (str at) details))

abbrev pub node_record : String → String → Fields → RiskState → AuditRecord
node_record action reason details state = record {
  actor = "workflow";
  tenant_id = state.tenant_id;
  action = action;
  resource_type = "workflow";
  resource_id = state.event_id;
  reason = some reason;
  correlation_id = state.correlation_id;
  metadata = some details;
  timestamp_utc = untimed;
}

module _ {W : Type 0} (services : NodeServices W) where
  unfoldable pub perf_counter : Exec W ℕ
  perf_counter w = let (t, w') = services.perf w in (ok t, w')

  -- The part of a node after its own computation: the trail entry, and the audit record with the
  -- same details. `more` is what the node adds to both.
  unfoldable pub finish_node :
      String → String → String → Fields → ℕ → RiskState → Exec W (List Fields)
  unfolding pure ◌>>=◌
  finish_node node action reason more start state = do
    end_time ← perf_counter
    let details = node_details (services.elapsed_ms start end_time) more state
    at ← utc_now services.audit
    log_action services.audit (node_record action reason details state)
    pure (state.audit_trail ++ trail_entry node action at details ∷ [])

  -- nodes/retrieval.py
  unfoldable pub retrieve_context : RiskState → Exec W RiskState
  unfolding pure ◌>>=◌
  retrieve_context state = do
    start ← perf_counter
    let event_type = get_or "event_type" state.raw_event (str "unknown")
    let context =
        text_append "simulated_context:"
          (text_append state.tenant_id (text_append ":" (services.str_of event_type)))
    new_trail ←
        finish_node "retrieval" "context_retrieved" "vector_retrieval_simulated" end start state
    pure (record state { retrieved_context = some context; audit_trail = new_trail })

  -- nodes/policy_validation.py
  unfoldable pub validate_policy : RiskState → Exec W RiskState
  unfolding pure lift ◌>>=◌
  validate_policy state = do
    start ← perf_counter
    policy_result ← lift (policy_of state.raw_event)
    new_trail ←
        finish_node "policy_validation" "policy_validated" "rule_based_validation"
          (field "policy_result" (str policy_result) end) start state
    pure (record state { policy_result = some policy_result; audit_trail = new_trail })

  -- nodes/risk_scoring.py
  unfoldable pub score_risk : RiskState → Exec W RiskState
  unfolding pure lift ◌>>=◌
  score_risk state = do
    start ← perf_counter
    risk_score ← lift (score_of state.raw_event)
    new_trail ←
        finish_node "risk_scoring" "risk_scored" "deterministic_scoring"
          (field "risk_score" (float risk_score) end) start state
    pure (record state { risk_score = some risk_score; audit_trail = new_trail })

  -- nodes/guardrails.py
  unfoldable pub apply_guardrails : RiskState → Exec W RiskState
  unfolding pure lift ◌>>=◌
  apply_guardrails state = do
    start ← perf_counter
    guardrail_result ← lift (guardrail_of state.raw_event state.risk_score)
    new_trail ←
        finish_node "guardrails" "guardrails_applied" "threshold_and_pattern_check"
          (field "guardrail_result" (str guardrail_result) end) start state
    pure (record state { guardrail_result = some guardrail_result; audit_trail = new_trail })

  -- nodes/decision.py
  unfoldable pub make_decision : RiskState → Exec W RiskState
  unfolding pure ◌>>=◌
  make_decision state = do
    start ← perf_counter
    let final_decision = decision_of state.policy_result state.risk_score state.guardrail_result
    new_trail ←
        finish_node "decision" "decision_made" "deterministic_decision"
          (field "final_decision" (str final_decision) end) start state
    pure (record state { final_decision = some final_decision; audit_trail = new_trail })
