-- ===== src/Workflow/Run/Correct.antt =====
-- What the nodes of a workflow leave behind on a new event.
use ai_risk_engine.Errors.{Error}
use ai_risk_engine.Exec.{ok, err}
use ai_risk_engine.Exec.Triple.{Triple, Triple-bind, Triple-weaken, Triple-given}
use ai_risk_engine.Json.{Fields, equals_text}
use ai_risk_engine.Prelude.{
  ◌≡◌, refl, ◌∙◌, ap, Bool, true, false, ◌||◌, String, Option, some, List, [], ◌∷◌, if◌then◌else◌,
}
use ai_risk_engine.Prelude.Int.{ℤ, ◌≤ℤ◌, whole}
use ai_risk_engine.Workflow.Nodes.{metadata_of, policy_of, score_of, guardrail_of}
use ai_risk_engine.Workflow.Nodes.Specs.{
  Triple-retrieve_context, Triple-validate_policy, Triple-score_risk, Triple-apply_guardrails,
}
use ai_risk_engine.Workflow.Sequence.{run_unless_done, run_all_nodes}
use ai_risk_engine.Workflow.Variant.{Shape, Variant}
use ai_risk_engine.Workflow.Run.Contract.{Reading, NodesAct}
use ai_risk_engine.Workflow.Run.Trail.{Stage, Stage-step, Stage-fresh, names}
use ai_risk_engine.Workflow.Run.Decision.{
  needs_person, decision-needs_person, policy_of-err, score_of-err, guardrail_of-err,
}
use ai_risk_engine.Workflow.Run.Specs.{Behaves, Triple-run_unless_done}
use ai_risk_engine.Workflow.Services.{Services, Span}

abbrev all_nodes : List String
all_nodes = "retrieval" ∷ "policy_validation" ∷ "risk_scoring" ∷ "guardrails" ∷ "decision" ∷ []

-- What the nodes decide, unless the state escalates.
escalate :
    (escalates person : Bool) {d : String}
    → d ≡ (if person then "REQUIRE_APPROVAL" else "APPROVED")
    → (if escalates then "REQUIRE_APPROVAL" else d)
      ≡ (if escalates || person then "REQUIRE_APPROVAL" else "APPROVED")
escalate true person h = refl
escalate false person h = h

module _ {S : Type 0} {shape : Shape S} (reading : Reading shape) where
  open shape use {common}
  open reading use {escalates, Agrees}

  -- The outcome of a run on the event of `s`.
  pub record IsDecided (s u : S) : Type 0 where
    pub stage : Stage (common s) all_nodes (common u)
    pub decision :
        (m : Fields) × (metadata_of (common s).raw_event ≡ ok m)
        × ((common u).final_decision
            ≡ some (
                if escalates s || needs_person (common s).raw_event m
                then "REQUIRE_APPROVAL"
                else "APPROVED"))
    pub score : (x : ℤ) × ((common u).risk_score ≡ some x) × (whole 0 ≤ℤ x) × (x ≤ℤ whole 100)
    pub same : escalates u ≡ escalates s
    pub agrees : Agrees u

module _ {W S : Type 0} {variant : Variant W S} {reading : Reading variant.shape}
    {services : Services W S} {P : W → Type 0} {E : Error → W → Type 0}
    (acts : NodesAct variant reading services.node) (behaves : Behaves variant services P E) (s : S)
    (fresh : (variant.shape.common s).audit_trail ≡ [])
    (bad : (e : Error)
      → metadata_of (variant.shape.common s).raw_event ≡ err e
      → (w : W) → P w
      → E e w) where
  open services use {node}
  open variant.shape use {common}
  open reading use {escalates}

  abbrev raw : Fields
  raw = (common s).raw_event

  Stage-start : Stage (common s) [] (common s)
  Stage-start = record {
    event_id = refl;
    tenant_id = refl;
    correlation_id = refl;
    raw_event = refl;
    nodes = ap names fresh;
  }

  abbrev Reached : List String → S → Type 0
  Reached done u = Stage (common s) done (common u) × (escalates u ≡ escalates s)

  abbrev HasPolicy : S → Type 0
  HasPolicy u = (p : String) × (policy_of raw ≡ ok p) × ((common u).policy_result ≡ some p)

  abbrev HasScore : ℤ → S → Type 0
  HasScore x u = (score_of raw ≡ ok x) × ((common u).risk_score ≡ some x)

  abbrev IsRetrieved : S → Type 0
  IsRetrieved u = Reached ("retrieval" ∷ []) u

  abbrev IsValidated : S → Type 0
  IsValidated u = Reached ("retrieval" ∷ "policy_validation" ∷ []) u × HasPolicy u

  abbrev IsScored : S → Type 0
  IsScored u =
      Reached ("retrieval" ∷ "policy_validation" ∷ "risk_scoring" ∷ []) u
      × HasPolicy u
      × ((x : ℤ) × HasScore x u)

  abbrev IsGuarded : S → Type 0
  IsGuarded u =
      Reached ("retrieval" ∷ "policy_validation" ∷ "risk_scoring" ∷ "guardrails" ∷ []) u
      × HasPolicy u
      × ((x : ℤ) × HasScore x u
          × ((g : String) × (guardrail_of raw (some x) ≡ ok g)
              × ((common u).guardrail_result ≡ some g)))

  Triple-retrieval :
      (root : Option Span)
      → Triple P
          (run_unless_done variant services root "retrieval" (variant.retrieval node) s)
          (λ u w. P w × IsRetrieved u)
          E
  unfolding equals_text
  Triple-retrieval root =
      Triple-run_unless_done behaves root "retrieval" _ s
        (Stage-fresh (common s) [] (common s) "retrieval" Stage-start refl)
        (Triple-weaken (acts.retrieval P _ E s (Triple-retrieve_context behaves.node (common s)))
          (λ w p. p)
          (λ u w (p, ((c, t, logged, is_u), same)). (
            p,
            (
              rw is_u (
                  Stage-step (common s) [] "retrieval" (common s) _ Stage-start refl refl refl refl
                    logged),
              same,
            ),
          )))

  Triple-policy :
      (root : Option Span) (v : S)
      → IsRetrieved v
      → Triple P
          (run_unless_done variant services root "policy_validation"
            (variant.policy_validation node)
            v)
          (λ u w. P w × IsValidated u)
          E
  unfolding equals_text
  Triple-policy root v (st, kept) =
      Triple-run_unless_done behaves root "policy_validation" _ v
        (Stage-fresh (common s) _ (common v) "policy_validation" st refl)
        (Triple-weaken
          (acts.policy_validation P _ E v (
            Triple-validate_policy behaves.node (common v)
              λ e h. bad e (policy_of-err raw e (rw (← st.raw_event) h))))
          (λ w p. p)
          (λ u w (p, ((x, t, logged, is_x, is_u), same)). (
            p,
            rw is_u (
              (
                Stage-step (common s) _ "policy_validation" (common v) _ st refl refl refl refl
                    logged,
                same ∙ kept,
              ),
              (x, rw (← st.raw_event) is_x, refl),
            ),
          )))

  Triple-score :
      (root : Option Span) (v : S)
      → IsValidated v
      → Triple P
          (run_unless_done variant services root "risk_scoring" (variant.risk_scoring node) v)
          (λ u w. P w × IsScored u)
          E
  unfolding equals_text
  Triple-score root v ((st, kept), (y, passed, is_y)) =
      Triple-run_unless_done behaves root "risk_scoring" _ v
        (Stage-fresh (common s) _ (common v) "risk_scoring" st refl)
        (Triple-weaken
          (acts.risk_scoring P _ E v (
            Triple-score_risk behaves.node (common v)
              λ e h. bad e (score_of-err raw e (rw (← st.raw_event) h))))
          (λ w p. p)
          (λ u w (p, ((x, t, logged, is_x, is_u), same)). (
            p,
            rw is_u (
              (
                Stage-step (common s) _ "risk_scoring" (common v) _ st refl refl refl refl logged,
                same ∙ kept,
              ),
              (y, passed, is_y),
              (x, (rw (← st.raw_event) is_x, refl)),
            ),
          )))

  Triple-guardrails :
      (root : Option Span) (v : S)
      → IsScored v
      → Triple P
          (run_unless_done variant services root "guardrails" (variant.guardrails node) v)
          (λ u w. P w × IsGuarded u)
          E
  unfolding equals_text
  Triple-guardrails root v ((st, kept), policy, (x, (scored, is_x))) =
      Triple-run_unless_done behaves root "guardrails" _ v
        (Stage-fresh (common s) _ (common v) "guardrails" st refl)
        (Triple-weaken
          (acts.guardrails P _ E v (
            Triple-apply_guardrails behaves.node (common v)
              λ e h. bad e (guardrail_of-err raw e (some x) (rw (← st.raw_event, ← is_x) h))))
          (λ w p. p)
          (λ u w (p, ((g, t, logged, is_g, is_u), same)). (
            p,
            rw is_u (
              (
                Stage-step (common s) _ "guardrails" (common v) _ st refl refl refl refl logged,
                same ∙ kept,
              ),
              policy,
              (x, (scored, is_x), (g, rw (← st.raw_event, ← is_x) is_g, refl)),
            ),
          )))

  Triple-decision :
      (root : Option Span) (v : S)
      → IsGuarded v
      → Triple P
          (run_unless_done variant services root "decision" (variant.decision node) v)
          (λ u w. P w × IsDecided reading s u)
          E
  unfolding equals_text
  Triple-decision root v ((st, kept), (y, passed, is_y), (x, (scored, is_x), (g, guarded, is_g))) =
      Triple-run_unless_done behaves root "decision" _ v
        (Stage-fresh (common s) _ (common v) "decision" st refl)
        (Triple-weaken (acts.decision P E v behaves.node) (λ w p. p)
          (λ u w (p, d).
            let ((m, h, decided), low, high) = decision-needs_person raw passed scored guarded in
            (
              p,
              record {
                stage = rw d.decided (
                    Stage-step (common s) _ "decision" (common v) _ st refl refl refl refl
                      d.logged);
                decision =
                    (m, h, rw (d.decided, is_y, is_x, is_g, kept) (ap some (escalate _ _ decided)));
                score = (x, rw d.decided is_x, low, high);
                same = d.same ∙ kept;
                agrees = d.agrees;
              },
            )))

  pub Triple-run_all_nodes :
      (root : Option Span)
      → Triple P (run_all_nodes variant services root s) (λ u w. P w × IsDecided reading s u) E
  unfolding run_all_nodes
  Triple-run_all_nodes root = Triple-bind (Triple-retrieval root) λ s₁.
      Triple-bind (Triple-given (Triple-policy root s₁)) λ s₂.
        Triple-bind (Triple-given (Triple-score root s₂)) λ s₃.
          Triple-bind (Triple-given (Triple-guardrails root s₃))
            λ s₄. Triple-given (Triple-decision root s₄)
