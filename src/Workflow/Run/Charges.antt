-- ===== src/Workflow/Run/Charges.antt =====
-- What a run of app/workflows/langgraph/risk_workflow.py and compliance_workflow.py charges to the
-- tracker of app/observability/cost_tracker.py.
pub mod Once
pub mod Variants
pub mod Tenants
use ai_risk_engine.Errors.{Error}
use ai_risk_engine.Exec.{Exec, Result, ok, err, catch, when_some, pure, ◌>>=◌}
use ai_risk_engine.Exec.Keeps.{
  Keeps, Keeps-bind, Keeps-pure, Keeps-if, Keeps-catch, Keeps-when_some,
}
use ai_risk_engine.Exec.Triple.{
  Outcome, Triple, Triple-pure, Triple-bind, Triple-weaken, Triple-given, Triple-frame, IfSome,
}
use ai_risk_engine.Json.{Fields}
use ai_risk_engine.Observability.Costs as Costs
use ai_risk_engine.Observability.Costs.{Floats, Charge, add_cost, add_cost_from_tokens}
use ai_risk_engine.Observability.Costs.Conservation.{
  Call, cost, tokens, perform, perform_all, IsCharged, perform_all-IsCharged,
}
use ai_risk_engine.Prelude.{
  ℕ, ◌≡◌, refl, sym, ap, ◌∙◌, Bool, true, false, String, Option, none, some, List, [], ◌∷◌, ◌++◌,
  ◌⊎◌, inl, inr, if◌then◌else◌,
}
use ai_risk_engine.Prelude.Int.{ℤ, pos}
use ai_risk_engine.Workflow.Nodes.Keeps.{Keeps-perf_counter}
use ai_risk_engine.Workflow.Run.Keeps.{
  VariantKeeps, OthersKeep, MetricsKeep, Keeps-resolve_versions, Keeps-on_governance_error,
  Keeps-run_traced,
}
use ai_risk_engine.Workflow.Run.{evaluate, report, execute}
use ai_risk_engine.Workflow.Variant.{Variant}
use ai_risk_engine.Workflow.Versions.{resolve_versions, on_governance_error}
use ai_risk_engine.Workflow.Services.{
  Services, CostTracker, LangfuseClient, Generation, EvaluationService, DecisionFacts,
  WorkflowStateStore,
}
use ai_risk_engine.Workflow.State.{RiskState}

module _ (floats : Floats) where
  -- The charge of `add_cost` in a run: 0.01 for the tenant, the model and the request.
  abbrev pub run_charge : RiskState → Charge floats
  run_charge s = record {
    tenant_id = s.tenant_id;
    amount = floats.of_decimal (pos 100);
    model_version = some s.model_version;
    request_id = some s.event_id;
  }

  -- The calls of the tracker that a run with this state makes, through the two collaborators it has.
  abbrev pub cost_calls : {W : Type 0} → Option (CostTracker W) → RiskState → List (Call floats)
  cost_calls none s = []
  cost_calls (some c) s = cost (run_charge s) ∷ []

  abbrev pub generation_calls :
      {W : Type 0} → Bool → Option (LangfuseClient W) → RiskState → List (Call floats)
  generation_calls true (some l) s =
      tokens s.tenant_id 100 50 (some s.model_version) (some s.event_id) ∷ []
  generation_calls true none s = []
  generation_calls false o s = []

  abbrev pub run_calls : {W S : Type 0} → Services W S → Bool → RiskState → List (Call floats)
  run_calls services shared s =
      cost_calls services.cost s ++ generation_calls shared services.langfuse s

  -- The evaluation is not part of what is charged.
  cost_calls-evaluated :
      {W : Type 0} (o : Option (CostTracker W)) (s : RiskState) (x : Option Fields)
      → cost_calls o (record s { evaluation_result = x }) ≡ cost_calls o s
  cost_calls-evaluated none s x = refl
  cost_calls-evaluated (some c) s x = refl

  generation_calls-evaluated :
      {W : Type 0} (shared : Bool) (o : Option (LangfuseClient W)) (s : RiskState)
      (x : Option Fields)
      → generation_calls shared o (record s { evaluation_result = x }) ≡ generation_calls shared o s
  generation_calls-evaluated true none s x = refl
  generation_calls-evaluated true (some l) s x = refl
  generation_calls-evaluated false o s x = refl

  pub run_calls-evaluated :
      {W S : Type 0} (services : Services W S) (shared : Bool) (s : RiskState) (x : Option Fields)
      → run_calls services shared (record s { evaluation_result = x }) ≡ run_calls services shared s
  run_calls-evaluated services shared s x =
      rw
        (
          cost_calls-evaluated services.cost s x,
          generation_calls-evaluated shared services.langfuse s x,
        )
        refl

module _ {floats : Floats} {W : Type 0} (look : W → Costs.CostTracker floats) where
  -- The tracker of the run is the one that `look` sees.
  abbrev pub Tracks : CostTracker W → Type 0
  Tracks c =
      (t : String) (x : ℤ) (m r : String) (w : W)
      → (w' : W) × (c.add_cost t x m r w ≡ (ok tt, w'))
        × (look w'
            ≡ add_cost
                (record {
                  tenant_id = t;
                  amount = floats.of_decimal x;
                  model_version = some m;
                  request_id = some r;
                })
                (look w))

  -- Langfuse charges that tracker exactly if it is `shared`.
  abbrev pub Generates : Bool → LangfuseClient W → Type 0
  Generates shared l =
      (g : Generation) (w : W)
      → (w' : W) × (l.log_generation g w ≡ (ok tt, w'))
        × (look w' ≡ (
            if shared
            then (add_cost_from_tokens g.tenant_id g.input_tokens g.output_tokens
                (some g.model_version) (some g.event_id) (look w)).1
            else look w))

pub perform_all-append :
    {floats : Floats} (first second : List (Call floats)) (t : Costs.CostTracker floats)
    → perform_all second (perform_all first t) ≡ perform_all (first ++ second) t
unfolding perform_all
perform_all-append [] second t = refl
perform_all-append (c ∷ first) second t = perform_all-append first second (perform c t)

module _ {floats : Floats} {W : Type 0} (look : W → Costs.CostTracker floats)
    (E : Error → W → Type 0) where
  -- An action that keeps what `look` sees.
  pub Triple-Keeps :
      {A : Type 0} {m : Exec W A} (v : Costs.CostTracker floats)
      → Keeps look m
      → ((e : Error) (w : W) → look w ≡ v → E e w)
      → Triple (λ w. look w ≡ v) m (λ _ w. look w ≡ v) E
  Triple-Keeps {A} {m} v keeps raised = record { at = λ w h. both (m w) (keeps.at w ∙ h) }
    where
      both : (r : Result A × W) → look r.1 ≡ v → Outcome (λ _ w. look w ≡ v) E r
      both (ok a, w) h = h
      both (err e, w) h = raised e w h

  -- An action that returns, with a known effect.
  Triple-act :
      {m : Exec W (Unit {0})} (v v' : Costs.CostTracker floats)
      → ((w : W) → look w ≡ v → (w' : W) × (m w ≡ (ok tt, w')) × (look w' ≡ v'))
      → Triple (λ w. look w ≡ v) m (λ _ w. look w ≡ v') E
  Triple-act v v' acts = record { at = λ w h. let (w', is, seen) = acts w h in rw is seen }

  pub Triple-cost :
      (o : Option (CostTracker W)) (s : RiskState) (v : Costs.CostTracker floats)
      → IfSome (Tracks look) o
      → Triple
          (λ w. look w ≡ v)
          (when_some o (λ c. c.add_cost s.tenant_id (pos 100) s.model_version s.event_id))
          (λ _ w. look w ≡ perform_all (cost_calls floats o s) v)
          E
  unfolding when_some perform_all perform
  Triple-cost none s v h = Triple-pure tt (λ w p. p)
  Triple-cost (some c) s v h = Triple-act v _ (λ w seen.
      let (w', is, added) = h s.tenant_id (pos 100) s.model_version s.event_id w in
      (w', is, added ∙ ap (add_cost (run_charge floats s)) seen))

  pub Triple-generation :
      (shared : Bool) (o : Option (LangfuseClient W)) (s : RiskState) (latency : ℤ)
      (v : Costs.CostTracker floats)
      → IfSome (Generates look shared) o
      → Triple
          (λ w. look w ≡ v)
          (when_some o (λ l. l.log_generation (record {
            event_id = s.event_id;
            tenant_id = s.tenant_id;
            prompt_version = s.prompt_version;
            model_version = s.model_version;
            input_tokens = 100;
            output_tokens = 50;
            latency_ms = latency;
          })))
          (λ _ w. look w ≡ perform_all (generation_calls floats shared o s) v)
          E
  unfolding when_some perform_all perform
  Triple-generation true none s latency v h = Triple-pure tt (λ w p. p)
  Triple-generation false none s latency v h = Triple-pure tt (λ w p. p)
  Triple-generation true (some l) s latency v h = Triple-act v _ (λ w seen.
      let (w', is, added) = h _ w in
      (
        w',
        is,
        added
            ∙ ap
                (λ (x : Costs.CostTracker floats).
                  (add_cost_from_tokens s.tenant_id 100 50 (some s.model_version) (some s.event_id)
                    x).1)
                seen,
      ))
  Triple-generation false (some l) s latency v h =
      Triple-act v _ (λ w seen. let (w', is, added) = h _ w in (w', is, added ∙ seen))
