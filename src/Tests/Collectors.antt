-- ===== src/Tests/Collectors.antt =====
-- Witnesses for the theorems on the collectors of app/observability.
use ai_risk_engine.Exec.{Result, ok, err, pure, when_some, ◌>>=◌}
use ai_risk_engine.Governance.Audit.{utc_now, log_action}
use ai_risk_engine.Observability.Costs as Costs
use ai_risk_engine.Observability.Costs.{get_cumulative}
use ai_risk_engine.Observability.Costs.Conservation.{
  Call, cost, tokens, IsCharged, perform_all, perform_all-IsCharged,
}
use ai_risk_engine.Observability.Evaluation.{EvaluationResult, evaluate_decision, scores_of}
use ai_risk_engine.Observability.Evaluation.Range.{AreScores, evaluate_decision-AreScores}
use ai_risk_engine.Observability.Metrics as Metrics
use ai_risk_engine.Observability.Metrics.Series.{Increment}
use ai_risk_engine.Prelude.{◌≡◌, refl, none, some, List, [], ◌∷◌, arith}
use ai_risk_engine.Prelude.Int.{whole}
use ai_risk_engine.Tests.Decimals.{decimals}
use ai_risk_engine.Tests.World.{World, empty_world, audit}
use ai_risk_engine.Workflow.Services.{DecisionFacts}

abbrev calls : List (Call decimals)
calls =
    cost (record {
      tenant_id = "t1";
      amount = 10000000;
      model_version = some "simulated@1";
      request_id = some "e1";
    })
    ∷ tokens "t2" 100 50 (some "simulated@1") none
    ∷ []

abbrev new_tracker : Costs.CostTracker decimals
new_tracker = Costs.new decimals (Costs.default_rate decimals)

perform_all-IsCharged_example : IsCharged calls new_tracker (perform_all calls new_tracker)
perform_all-IsCharged_example = perform_all-IsCharged calls new_tracker

abbrev increments : List Increment
increments =
    record { name = "request_count"; value = whole 1; tenant_id = some "t1"; category = none }
    ∷ record { name = "request_count"; value = whole 2; tenant_id = none; category = none }
    ∷ []

abbrev facts : DecisionFacts
facts = record {
  tenant_id = "t1";
  event_id = "e1";
  correlation_id = "c1";
  final_decision = "REQUIRE_APPROVAL";
  policy_result = "PASS";
  guardrail_result = "VIOLATION";
  risk_score = some (whole 85);
}

abbrev evaluated : Result EvaluationResult × World
evaluated = evaluate_decision (some audit) facts empty_world

abbrev result_of : Result EvaluationResult → EvaluationResult
result_of (ok r) = r
result_of (err e) = scores_of facts

evaluated_ok :
    evaluate_decision (some audit) facts empty_world ≡ (ok (result_of evaluated.0), evaluated.1)
unfolding evaluate_decision utc_now log_action pure when_some ◌>>=◌
evaluated_ok = refl

evaluate_decision-AreScores_example : AreScores facts (result_of evaluated.0)
evaluate_decision-AreScores_example =
    evaluate_decision-AreScores (some audit) facts empty_world evaluated.1 (result_of evaluated.0)
      (omega arith, omega arith) evaluated_ok
