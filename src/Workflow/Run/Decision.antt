-- ===== src/Workflow/Run/Decision.antt =====
-- The decision that the nodes of app/workflows/langgraph/nodes come to, as a function of the event.
use ai_risk_engine.Errors.{Error}
use ai_risk_engine.Exec.{Result, Result-cases, ok, err}
use ai_risk_engine.Json.{Fields, str, bool, null, get, get_or, truthy, equals_text}
use ai_risk_engine.Prelude.{
  ◌≡◌, refl, inl, inr, Bool, true, false, ◌||◌, String, Option, some, Option-cases, arith,
  if◌then◌else◌,
}
use ai_risk_engine.Prelude.Int.{ℤ, ◌≤ℤ◌, whole}
use ai_risk_engine.Workflow.Nodes.{
  metadata_of, policy_of, score_of, guardrail_of, decision_of, is_over_threshold, is_text,
}

-- What the code decides, from the details of the event alone: a person has to approve if the policy
-- is overridden, the category is sensitive, a blocked pattern is reported or the event is high risk.
abbrev pub needs_person : Fields → Fields → Bool
needs_person raw m =
    truthy (get_or "policy_override" m (bool false))
    || equals_text (get_or "category" m (str "")) "sensitive"
    || truthy (get_or "blocked_pattern" m (bool false))
    || equals_text (get_or "event_type" raw (str "standard")) "high_risk"

-- A missing category and an empty one are alike not sensitive.
category_default :
    (m : Fields)
    → equals_text (get_or "category" m null) "sensitive"
      ≡ equals_text (get_or "category" m (str "")) "sensitive"
unfolding get_or equals_text
category_default m = ground (arith, Option-cases (get "category" m))

module _ (raw m : Fields) (h : metadata_of raw ≡ ok m) where
  policy_of-metadata :
      policy_of raw
      ≡ ok (
          if truthy (get_or "policy_override" m (bool false))
            || equals_text (get_or "category" m (str "")) "sensitive"
          then "FAIL"
          else "PASS")
  unfolding policy_of
  policy_of-metadata = rw h refl

  score_of-metadata :
      score_of raw
      ≡ ok (
          if equals_text (get_or "event_type" raw (str "standard")) "high_risk"
          then whole 85
          else if equals_text (get_or "category" m (str "")) "sensitive"
          then whole 70
          else if equals_text (get_or "event_type" raw (str "standard")) "low_risk"
          then whole 15
          else whole 30)
  unfolding score_of
  score_of-metadata = rw (h, category_default m) (ground arith)

  guardrail_of-metadata :
      (x : Option ℤ)
      → guardrail_of raw x
        ≡ ok (
            if truthy (get_or "blocked_pattern" m (bool false)) || is_over_threshold x
            then "VIOLATION"
            else "OK")
  unfolding guardrail_of
  guardrail_of-metadata x = rw h refl

abbrev score_ladder : Bool → Bool → Bool → ℤ
score_ladder high sensitive low =
    if high then whole 85 else if sensitive then whole 70 else if low then whole 15 else whole 30

abbrev guardrail_at : Bool → ℤ → String
guardrail_at blocked x = if blocked || is_over_threshold (some x) then "VIOLATION" else "OK"

decision-cases :
    (overridden sensitive blocked high low : Bool)
    → (let x = score_ladder high sensitive low in
        decision_of
          (some (if overridden || sensitive then "FAIL" else "PASS"))
          (some x)
          (some (guardrail_at blocked x)))
      ≡ (if overridden || sensitive || blocked || high then "REQUIRE_APPROVAL" else "APPROVED")
unfolding decision_of is_text is_over_threshold
decision-cases true sensitive blocked high low = refl
decision-cases false true blocked high low = refl
decision-cases false false true true low = refl
decision-cases false false true false true = refl
decision-cases false false true false false = refl
decision-cases false false false true low = refl
decision-cases false false false false true = refl
decision-cases false false false false false = refl

score_ladder-bounds :
    (high sensitive low : Bool)
    → (whole 0 ≤ℤ score_ladder high sensitive low) × (score_ladder high sensitive low ≤ℤ whole 100)
score_ladder-bounds high sensitive low = ground arith

ok_injective {ℓ} : {A : Type ℓ} {a : Result A} {x y : A} → a ≡ ok x → a ≡ ok y → x ≡ y
ok_injective h k = ground (arith, h, k)

-- The three nodes before the decision computed something, so the metadata were no other value than
-- a dictionary, and the decision is the one that `needs_person` describes.
pub decision-needs_person :
    (raw : Fields) {p g : String} {x : ℤ}
    → policy_of raw ≡ ok p
    → score_of raw ≡ ok x
    → guardrail_of raw (some x) ≡ ok g
    → ((m : Fields) × (metadata_of raw ≡ ok m)
        × (decision_of (some p) (some x) (some g)
            ≡ (if needs_person raw m then "REQUIRE_APPROVAL" else "APPROVED")))
      × (whole 0 ≤ℤ x)
      × (x ≤ℤ whole 100)
unfolding policy_of
decision-needs_person raw {p} {g} {x} hp hx hg = elim (Result-cases (metadata_of raw)) [
  | inl (m, h) ↦ decided_at m h
  | inr (e, h) ↦ absurd (ground (arith, h, hp))
]
  where
    decided_at :
        (m : Fields)
        → metadata_of raw ≡ ok m
        → ((m : Fields) × (metadata_of raw ≡ ok m)
            × (decision_of (some p) (some x) (some g)
                ≡ (if needs_person raw m then "REQUIRE_APPROVAL" else "APPROVED")))
          × (whole 0 ≤ℤ x)
          × (x ≤ℤ whole 100)
    decided_at m h =
        let is_p = ok_injective hp (policy_of-metadata raw m h) in
        let is_x = ok_injective hx (score_of-metadata raw m h) in
        let is_g = ok_injective hg (guardrail_of-metadata raw m h (some x)) in
        let bounds = score_ladder-bounds _ _ _ in
        (
          (m, h, rw (is_p, is_g, is_x) (decision-cases _ _ _ _ _)),
          rw is_x bounds.0,
          rw is_x bounds.1,
        )

-- What the three nodes raise is what the metadata raise.
module _ (raw : Fields) (e : Error) where
  pub policy_of-err : policy_of raw ≡ err e → metadata_of raw ≡ err e
  unfolding policy_of
  policy_of-err h = ground (arith, Result-cases (metadata_of raw))

  pub score_of-err : score_of raw ≡ err e → metadata_of raw ≡ err e
  unfolding score_of
  score_of-err h = ground (arith, Result-cases (metadata_of raw))

  pub guardrail_of-err : (x : Option ℤ) → guardrail_of raw x ≡ err e → metadata_of raw ≡ err e
  unfolding guardrail_of
  guardrail_of-err x h = ground (arith, Result-cases (metadata_of raw))
