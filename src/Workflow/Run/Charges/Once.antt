-- ===== src/Workflow/Run/Charges/Once.antt =====
-- `run` of app/workflows/langgraph/risk_workflow.py and compliance_workflow.py over the tracker of
-- app/observability/cost_tracker.py: what the body of its `try` charges.
use ai_risk_engine.Errors.{Error}
use ai_risk_engine.Exec.{Result, ok, err}
use ai_risk_engine.Exec.Keeps.{Keeps, Keeps-pure, Keeps-if, Keeps-catch, Keeps-when_some}
use ai_risk_engine.Exec.Triple.{
  Outcome, Triple, Triple-pure, Triple-ok, Triple-bind, Triple-weaken, IfSome,
}
use ai_risk_engine.Observability.Costs as Costs
use ai_risk_engine.Observability.Costs.{Floats}
use ai_risk_engine.Observability.Costs.Conservation.{perform_all, IsCharged, perform_all-IsCharged}
use ai_risk_engine.Prelude.{ℕ, ◌≡◌, refl, sym, ap, ◌∙◌, Bool, Option, none, some, ◌⊎◌, inl, inr}
use ai_risk_engine.Workflow.Nodes.Keeps.{Keeps-perf_counter}
use ai_risk_engine.Workflow.Run.Charges.{
  run_calls-evaluated, run_calls, Tracks, Generates, perform_all-append, Triple-Keeps, Triple-cost,
  Triple-generation, cost_calls,
}
use ai_risk_engine.Workflow.Run.Keeps.{
  VariantKeeps, OthersKeep, MetricsKeep, Keeps-resolve_versions, Keeps-on_governance_error,
  Keeps-run_traced,
}
use ai_risk_engine.Workflow.Run.{evaluate, report, execute}
use ai_risk_engine.Workflow.Variant.{Variant}
use ai_risk_engine.Workflow.Services.{Services, EvaluationService, DecisionFacts}
use ai_risk_engine.Workflow.State.{RiskState}

-- The workflow charges the tracker that `look` sees through its cost tracker, and through Langfuse
-- if it is `shared`; nothing else of the workflow changes that tracker.
pub record IsCharging {floats : Floats} {W S : Type 0} (variant : Variant W S)
    (services : Services W S) (look : W → Costs.CostTracker floats) (shared : Bool) : Type 0 where
  pub nodes : VariantKeeps variant services.node look
  pub others : OthersKeep services look
  pub tracked : IfSome (Tracks look) services.cost
  pub generated : IfSome (Generates look shared) services.langfuse
  pub common-with_common :
      (s : S) (r : RiskState) → variant.shape.common (variant.shape.with_common s r) ≡ r

module _ {floats : Floats} {W S : Type 0} {variant : Variant W S} {services : Services W S}
    {look : W → Costs.CostTracker floats} {shared : Bool}
    (charging : IsCharging variant services look shared) (before : Costs.CostTracker floats) where
  open variant.shape use {common, with_common}
  open services use {node, store, metrics, tracing, langfuse, cost, evaluation}
  open charging use {nodes, others, tracked, generated}

  abbrev charged : RiskState → Costs.CostTracker floats
  charged s = perform_all (run_calls floats services shared s) before

  abbrev IsStill : W → Type 0
  IsStill w = look w ≡ before

  abbrev IsPaid : RiskState → W → Type 0
  IsPaid s w = look w ≡ charged s

  -- After an exception nothing or the charges of one state have been made.
  abbrev AtMostOnce : Error → W → Type 0
  AtMostOnce e w = (look w ≡ before) ⊎ ((r : RiskState) × (look w ≡ charged r))

  still : (e : Error) (w : W) → look w ≡ before → AtMostOnce e w
  still e w seen = inl seen

  Triple-report :
      (start : ℕ) (u : S)
      → Triple IsStill (report variant services start u) (λ _ w. IsPaid (common u) w) AtMostOnce
  unfolding report
  Triple-report start u =
      Triple-bind
        (Triple-Keeps look AtMostOnce before
          (Keeps-when_some (MetricsKeep look) metrics _ others.metrics
            (λ m keeps. Keeps-if (variant.needs_approval u) (keeps.0 _ _ _) (Keeps-pure tt)))
          still)
        λ _.
          Triple-bind (Triple-Keeps look AtMostOnce before (Keeps-perf_counter others.node) still)
            λ end_time.
              Triple-bind
                (Triple-Keeps look AtMostOnce before
                  (Keeps-when_some (MetricsKeep look) metrics _ others.metrics
                    (λ m keeps. keeps.1 _ _ _))
                  still)
                λ _. Triple-bind (Triple-cost look AtMostOnce cost (common u) before tracked) λ _.
                  Triple-weaken
                    (Triple-generation look AtMostOnce shared langfuse (common u) _ _ generated)
                    (λ w p. p)
                    (λ a w seen.
                      seen ∙ perform_all-append (cost_calls floats cost (common u)) _ before)

  Triple-evaluate :
      (o : Option (EvaluationService W)) (u : S)
      → IfSome (λ v. (d : DecisionFacts) → Keeps look (v.evaluate_decision d)) o
      → Triple
          (λ w. IsPaid (common u) w)
          (evaluate variant services o u)
          (λ v w. IsPaid (common v) w)
          AtMostOnce
  unfolding evaluate
  Triple-evaluate none u h = Triple-pure u (λ w p. p)
  Triple-evaluate (some v) u h =
      Triple-bind
        (Triple-Keeps look AtMostOnce (charged (common u)) (h _) (λ e w seen. inr (common u, seen)))
        λ result. Triple-pure _ (λ w seen.
          rw (charging.common-with_common u (record (common u) { evaluation_result = some result }))
            (seen
              ∙ ap (λ calls. perform_all calls before)
                  (sym (run_calls-evaluated floats services shared (common u) (some result)))))

  Triple-execute :
      (start : ℕ) (s : S)
      → Triple IsStill (execute variant services start s) (λ u w. IsPaid (common u) w) AtMostOnce
  unfolding execute
  Triple-execute start s =
      Triple-bind
        (Triple-Keeps look AtMostOnce before
          (Keeps-catch (Keeps-resolve_versions nodes others s)
            (Keeps-on_governance_error nodes others s))
          still)
        λ resolved.
          Triple-bind
            (Triple-Keeps look AtMostOnce before
              (Keeps-run_traced nodes others tracing resolved others.tracing) still)
            λ decided. Triple-bind (Triple-report start decided) λ _.
              Triple-bind (Triple-evaluate evaluation decided others.evaluations) λ u.
                Triple-bind
                  (Triple-Keeps look AtMostOnce (charged (common u))
                    (Keeps-when_some _ store _ others.stored (λ st keeps. keeps _ _))
                    (λ e w seen. inr (common u, seen)))
                  λ _. Triple-pure u (λ w p. p)

module _ {floats : Floats} {W S : Type 0} {variant : Variant W S} {services : Services W S}
    {look : W → Costs.CostTracker floats} {shared : Bool}
    (charging : IsCharging variant services look shared) where
  -- Over a cost tracker that the workflow's `add_cost` changes as the tracker says, Langfuse too if
  -- it is `shared`, both without a raise, and that no other collaborator changes: a run that is not
  -- answered from the store and returns has charged the tracker once for its final state, with 0.01
  -- if the workflow has the tracker and with the price of 100 and 50 tokens if Langfuse shares it,
  -- and with nothing else; one that raises has charged nothing, or that once for some state.
  pub execute_charges :
      (start : ℕ) (s : S) (w : W)
      → Outcome
          (λ u w'.
            IsCharged
              (run_calls floats services shared (variant.shape.common u))
              (look w)
              (look w'))
          (λ e w'.
            (look w' ≡ look w)
            ⊎ ((r : RiskState) × IsCharged (run_calls floats services shared r) (look w) (look w')))
          (execute variant services start s w)
  execute_charges start s w =
      sum_up (execute variant services start s w)
        ((Triple-execute charging (look w) start s).at w refl)
    where
      sum_up :
          (r : Result S × W)
          → Outcome
              (λ u w'. look w' ≡ charged charging (look w) (variant.shape.common u))
              (AtMostOnce charging (look w))
              r
          → Outcome
              (λ u w'.
                IsCharged
                  (run_calls floats services shared (variant.shape.common u))
                  (look w)
                  (look w'))
              (λ e w'.
                (look w' ≡ look w)
                ⊎ ((r : RiskState) × IsCharged
                      (run_calls floats services shared r)
                      (look w)
                      (look w')))
              r
      sum_up (ok u, w') seen = rw seen (perform_all-IsCharged _ (look w))
      sum_up (err e, w') (inl seen) = inl seen
      sum_up (err e, w') (inr (r, seen)) = inr (r, rw seen (perform_all-IsCharged _ (look w)))

  -- The same of a run that returned.
  pub execute_charges_ok :
      (start : ℕ) (s : S) (w w' : W) (u : S)
      → execute variant services start s w ≡ (ok u, w')
      → IsCharged (run_calls floats services shared (variant.shape.common u)) (look w) (look w')
  execute_charges_ok start s w w' u h =
      rw (Triple-ok (Triple-execute charging (look w) start s) w w' u refl h)
        (perform_all-IsCharged _ (look w))
