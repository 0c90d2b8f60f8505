-- ===== src/Observability/Evaluation/Range.antt =====
-- The scores of a decision.
use ai_risk_engine.Exec.{ok}
use ai_risk_engine.Exec.Triple.{Triple, Triple-pure, Triple-bind, Triple-any, Triple-ok}
use ai_risk_engine.Exec.{when_some}
use ai_risk_engine.Governance.Audit.{AuditLogger}
use ai_risk_engine.Observability.Evaluation.{
  EvaluationResult, round_half_even, round_part, full_if, risk_normalized, confidence_parts,
  overall_parts, scores_of, evaluate_decision,
}
use ai_risk_engine.Prelude.{
  ℕ, zero, suc, ◌-◌, ◌+◌, ◌*◌, ◌≤◌, ◌≡◌, refl, Bool, true, false, String, Option, none, some, ◌==◌,
  arith, ◌↔◌, eq_iff,
}
use ai_risk_engine.Prelude.Int.{ℤ, pos, negsuc, whole, ◌+ℤ◌, ◌≤ℤ◌}
use ai_risk_engine.Workflow.Services.{DecisionFacts}

-- A score from 0.0 to 1.0.
abbrev pub IsUnit : ℤ → Type 0
IsUnit x = (pos 0 ≤ℤ x) × (x ≤ℤ whole 1)

round_300 : (n : ℕ) → n ≤ 3000000 → round_half_even n 300 ≤ 10000
round_300 n h = ground arith

round_900 : (n : ℕ) → n ≤ 9000000 → round_half_even n 900 ≤ 10000
round_900 n h = ground arith

-- The score is absent, or lies from 0 to 100.
abbrev pub ScoreInRange : Option ℤ → Type 0
ScoreInRange none = Unit
ScoreInRange (some x) = (pos 0 ≤ℤ x) × (x ≤ℤ whole 100)

risk_normalized-bounds :
    (o : Option ℤ) → ScoreInRange o → (n : ℕ) × (risk_normalized o ≡ pos n) × (n ≤ 1000000)
risk_normalized-bounds none h = (1000000, refl, omega arith)
risk_normalized-bounds (some (pos zero)) h = (1000000, refl, omega arith)
risk_normalized-bounds (some (pos (suc x))) h = (999999 - x, ground arith, omega arith)
risk_normalized-bounds (some (negsuc x)) h = absurd (omega (arith, h.0))

full_if-le : (b : Bool) → full_if b ≤ 1000000
full_if-le b = ground arith

-- The scores are in range, and those of policy and guardrail say what the results were.
pub record AreScores (facts : DecisionFacts) (result : EvaluationResult) : Type 0 where
  pub confidence : IsUnit result.confidence_score
  pub policy : IsUnit result.policy_alignment_score
  pub guardrail : IsUnit result.guardrail_score
  pub overall : IsUnit result.overall_quality_score
  pub policy_passed : (result.policy_alignment_score ≡ whole 1) ↔ (facts.policy_result ≡ "PASS")
  pub guardrail_held : (result.guardrail_score ≡ whole 1) ↔ (facts.guardrail_result ≡ "OK")

IsUnit-confidence :
    (p g : Bool) (o : Option ℤ)
    → ScoreInRange o
    → IsUnit (round_part (pos (full_if p + full_if g) +ℤ risk_normalized o) 300)
IsUnit-confidence p g o h =
    let (n, is_n, bound) = risk_normalized-bounds o h in
    rw is_n (
      omega arith,
      omega (
        arith,
        round_300 (full_if p + full_if g + n) (omega (arith, full_if-le p, full_if-le g, bound)),
      ),
    )

IsUnit-overall :
    (p g : Bool) (o : Option ℤ)
    → ScoreInRange o
    → IsUnit (
        round_part
          (pos (full_if p + full_if g) +ℤ risk_normalized o +ℤ pos (3 * (full_if p + full_if g)))
          900)
IsUnit-overall p g o h =
    let (n, is_n, bound) = risk_normalized-bounds o h in
    rw is_n (
      omega arith,
      omega (
        arith,
        round_900 (full_if p + full_if g + n + 3 * (full_if p + full_if g))
            (omega (arith, full_if-le p, full_if-le g, bound)),
      ),
    )

IsUnit-flag : (b : Bool) → IsUnit (pos (round_half_even (full_if b) 100))
IsUnit-flag true = (omega arith, omega arith)
IsUnit-flag false = (omega arith, omega arith)

flag-whole : (s t : String) → (pos (round_half_even (full_if (s == t)) 100) ≡ whole 1) ↔ (s ≡ t)
flag-whole s t = ground (arith, eq_iff s t)

Triple-evaluate_decision :
    {W : Type 0} (audit : Option (AuditLogger W)) (facts : DecisionFacts)
    → Triple (λ _. Unit) (evaluate_decision audit facts) (λ r _. r ≡ scores_of facts) (λ _ _. Unit)
unfolding evaluate_decision
Triple-evaluate_decision audit facts =
    Triple-bind (Triple-any (when_some audit _)) λ done. Triple-pure _ (λ w p. refl)

scores_of-AreScores :
    (facts : DecisionFacts) → ScoreInRange facts.risk_score → AreScores facts (scores_of facts)
unfolding scores_of confidence_parts overall_parts
scores_of-AreScores facts h =
    let passed = facts.policy_result == "PASS" in
    let held = facts.guardrail_result == "OK" in
    record {
      confidence = IsUnit-confidence passed held facts.risk_score h;
      policy = IsUnit-flag passed;
      guardrail = IsUnit-flag held;
      overall = IsUnit-overall passed held facts.risk_score h;
      policy_passed = flag-whole facts.policy_result "PASS";
      guardrail_held = flag-whole facts.guardrail_result "OK";
    }

-- The four scores of a decision with a risk score from 0 to 100, or with none, lie from 0.0 to 1.0
-- as the class promises, whatever the results of policy and guardrail are and whatever the audit
-- logger does, and the scores of policy and guardrail are 1.0 exactly for the results PASS and OK.
pub evaluate_decision-AreScores :
    {W : Type 0} (audit : Option (AuditLogger W)) (facts : DecisionFacts) (w w' : W)
    (result : EvaluationResult)
    → ScoreInRange facts.risk_score
    → evaluate_decision audit facts w ≡ (ok result, w')
    → AreScores facts result
evaluate_decision-AreScores audit facts w w' result h ran =
    rw (Triple-ok (Triple-evaluate_decision audit facts) w w' result tt ran)
      (scores_of-AreScores facts h)
