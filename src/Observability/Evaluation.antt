-- ===== src/Observability/Evaluation.antt =====
-- app/observability/evaluation.py. A score is computed as a fraction, over 300 or 900 parts of a
-- ten-thousandth, and rounded as `round(x, 4)` rounds it, half to even; that the sums before it are
-- floats, which are rounded too, is not modelled.
pub mod Range
use ai_risk_engine.Exec.{Exec, pure, when_some, ◌>>=◌, ◌>>◌}
use ai_risk_engine.Governance.Audit.{AuditRecord, AuditLogger, log_action, untimed}
use ai_risk_engine.Json.{Fields, float, dict, field, end}
use ai_risk_engine.Prelude.{
  ℕ, ◌+◌, ◌*◌, ◌%◌, Bool, true, false, String, Option, none, some, if◌then◌else◌, ltb, leb, ◌==◌,
}
use ai_risk_engine.Prelude.Int.{ℤ, pos, negsuc, ◌+ℤ◌, negate}
use ai_risk_engine.Workflow.Services.{EvaluationService, DecisionFacts}
use Prim.Native.Nat.{◌/◌}

pub record EvaluationResult : Type 0 where
  pub confidence_score : ℤ
  pub policy_alignment_score : ℤ
  pub guardrail_score : ℤ
  pub overall_quality_score : ℤ

-- `EvaluationResult.to_dict`
abbrev pub to_dict : EvaluationResult → Fields
to_dict r = field "confidence_score" (float r.confidence_score) (
    field "policy_alignment_score" (float r.policy_alignment_score) (
      field "guardrail_score" (float r.guardrail_score)
        (field "overall_quality_score" (float r.overall_quality_score) end)))

-- The nearest number to n / d, the even one of two that are as near.
abbrev pub round_half_even : ℕ → ℕ → ℕ
round_half_even n d =
    if ltb (n % d + n % d) d
    then n / d
    else if ltb d (n % d + n % d)
    then n / d + 1
    else if leb (n / d % 2) 0
    then n / d
    else n / d + 1

abbrev pub round_part : ℤ → ℕ → ℤ
round_part (pos n) d = pos (round_half_even n d)
round_part (negsuc n) d = negate (pos (round_half_even (n + 1) d))

-- `1.0 if result == wanted else 0.0`, in millionths.
abbrev pub full_if : Bool → ℕ
full_if holds = if holds then 1000000 else 0

-- `1.0 - ((risk_score or 0) / 100.0)`, in millionths: the score is in ten-thousandths.
abbrev pub risk_normalized : Option ℤ → ℤ
risk_normalized none = pos 1000000
risk_normalized (some risk_score) = pos 1000000 +ℤ negate risk_score

-- The three parts of the confidence, and those and two more of the overall score.
unfoldable pub confidence_parts : DecisionFacts → ℤ
confidence_parts facts =
    pos (full_if (facts.policy_result == "PASS") + full_if (facts.guardrail_result == "OK"))
    +ℤ risk_normalized facts.risk_score

unfoldable pub overall_parts : DecisionFacts → ℤ
unfolding confidence_parts
overall_parts facts =
    confidence_parts facts
    +ℤ pos
        (3 * (full_if (facts.policy_result == "PASS") + full_if (facts.guardrail_result == "OK")))

-- The scores of `evaluate_decision`: a third of three parts, a ninth of nine.
unfoldable pub scores_of : DecisionFacts → EvaluationResult
unfolding confidence_parts overall_parts
scores_of facts = record {
  confidence_score = round_part (confidence_parts facts) 300;
  policy_alignment_score = pos (round_half_even (full_if (facts.policy_result == "PASS")) 100);
  guardrail_score = pos (round_half_even (full_if (facts.guardrail_result == "OK")) 100);
  overall_quality_score = round_part (overall_parts facts) 900;
}

module _ {W : Type 0} (audit : Option (AuditLogger W)) where
  -- `EvaluationService.evaluate_decision`
  unfoldable pub evaluate_decision : DecisionFacts → Exec W EvaluationResult
  unfolding pure ◌>>=◌
  evaluate_decision facts = do
    when_some audit (λ logger. log_action logger (record {
      actor = "evaluation_service";
      tenant_id = facts.tenant_id;
      action = "evaluation_completed";
      resource_type = "workflow";
      resource_id = facts.event_id;
      reason = some "quality_scoring";
      correlation_id = facts.correlation_id;
      metadata = some (field "evaluation" (dict (to_dict (scores_of facts))) end);
      timestamp_utc = untimed;
    }))
    pure (scores_of facts)

  -- The service as the workflows call it, which keep the dictionary of the result.
  abbrev pub evaluation_service : EvaluationService W
  evaluation_service = record {
    evaluate_decision = λ facts. (do result ← evaluate_decision facts; pure (to_dict result));
  }
