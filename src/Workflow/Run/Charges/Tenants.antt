-- ===== src/Workflow/Run/Charges/Tenants.antt =====
-- Who pays for a run of app/workflows/langgraph/risk_workflow.py and compliance_workflow.py: the
-- tenant costs of app/observability/cost_tracker.py.
use ai_risk_engine.Exec.{ok}
use ai_risk_engine.Observability.Costs as Costs
use ai_risk_engine.Observability.Costs.{Floats}
use ai_risk_engine.Observability.Costs.{get_tenant_cost, cost_of_tokens}
use ai_risk_engine.Observability.Costs.Conservation.{added}
use ai_risk_engine.Prelude.{
  ℕ, ◌++◌, ◌≡◌, refl, ◌∙◌, Bool, true, false, String, Option, none, some, [], if◌then◌else◌, ◌==◌,
}
use ai_risk_engine.Prelude.Int.{pos}
use ai_risk_engine.Workflow.Run.{execute}
use ai_risk_engine.Workflow.Run.Charges.{cost_calls, generation_calls}
use ai_risk_engine.Workflow.Run.Charges.Once.{IsCharging, execute_charges_ok}
use ai_risk_engine.Workflow.Run.Contract.{Reading, NodesAct}
use ai_risk_engine.Workflow.Run.Outcome.{execute-IsDecided}
use ai_risk_engine.Workflow.Services.{Services, CostTracker, LangfuseClient}
use ai_risk_engine.Workflow.State.{RiskState}
use ai_risk_engine.Workflow.Variant.{Variant}

module _ (floats : Floats) where
  -- A cost with 0.01 added, if there is a cost tracker.
  abbrev request_paid : {W : Type 0} → Option (CostTracker W) → floats.F → floats.F
  request_paid none x = x
  request_paid (some c) x = floats.add x (floats.of_decimal (pos 100))

  -- A cost with the price of 100 and 50 tokens added, if Langfuse charges them there.
  abbrev tokens_paid :
      {W : Type 0} → floats.F → Bool → Option (LangfuseClient W) → floats.F → floats.F
  tokens_paid rate true (some l) x = floats.add x (cost_of_tokens floats rate 100 50)
  tokens_paid rate true none x = x
  tokens_paid rate false o x = x

  -- A cost with that of a run added, first that of the request and then that of the tokens.
  abbrev pub run_paid : {W S : Type 0} → floats.F → Services W S → Bool → floats.F → floats.F
  run_paid rate services shared x =
      tokens_paid rate shared services.langfuse (request_paid services.cost x)

  added-calls :
      {W : Type 0} (rate : floats.F) (shared : Bool) (o : Option (CostTracker W))
      (l : Option (LangfuseClient W)) (s : RiskState) (asked : String) (x : floats.F)
      → added rate
          (λ charge. charge.tenant_id == asked)
          (cost_calls floats o s ++ generation_calls floats shared l s)
          x
        ≡ (if s.tenant_id == asked then tokens_paid rate shared l (request_paid o x) else x)
  added-calls {W} rate shared o l s asked x = by_calls shared o l (s.tenant_id == asked) refl
    where
      by_calls :
          (shared : Bool) (o : Option (CostTracker W)) (l : Option (LangfuseClient W)) (b : Bool)
          → (s.tenant_id == asked) ≡ b
          → added rate
              (λ charge. charge.tenant_id == asked)
              (cost_calls floats o s ++ generation_calls floats shared l s)
              x
            ≡ (if b then tokens_paid rate shared l (request_paid o x) else x)
      by_calls true none none true h = refl
      by_calls true none none false h = refl
      by_calls true none (some l) b h = rw h refl
      by_calls true (some c) none b h = rw h refl
      by_calls true (some c) (some l) true h = rw h refl
      by_calls true (some c) (some l) false h = rw h refl
      by_calls false none l true h = refl
      by_calls false none l false h = refl
      by_calls false (some c) l b h = rw h refl

module _ {floats : Floats} {W S : Type 0} {variant : Variant W S} {services : Services W S}
    {look : W → Costs.CostTracker floats} {shared : Bool} {reading : Reading variant.shape}
    (charging : IsCharging variant services look shared)
    (acts : NodesAct variant reading services.node) where
  -- The tenant of a request pays for its run and no other tenant does. On an event that no node has
  -- seen, over a cost tracker that the workflow's `add_cost` changes as the tracker says, Langfuse
  -- too if it is `shared`, both without a raise, and that no other collaborator changes: a run that
  -- returns has added to the cost of the tenant of the event first 0.01, if the workflow has the
  -- tracker, and then the price of 150 tokens at the tracker's rate, if Langfuse shares it, and has
  -- left the cost of every other tenant alone, whatever the floats. The nodes are those of a variant
  -- that acts as the workflows do.
  pub execute_charges_tenant :
      (start : ℕ) (s : S) (w w' : W) (u : S) (asked : String)
      → (variant.shape.common s).audit_trail ≡ []
      → execute variant services start s w ≡ (ok u, w')
      → get_tenant_cost asked (look w') ≡ (
          if (variant.shape.common s).tenant_id == asked
          then run_paid floats (look w).rate_per_1k services shared (get_tenant_cost asked (look w))
          else get_tenant_cost asked (look w))
  execute_charges_tenant start s w w' u asked fresh h =
      let charged = execute_charges_ok charging start s w w' u h in
      let decided = execute-IsDecided services acts start s w w' u fresh h in
      charged.tenants asked
      ∙ added-calls floats (look w).rate_per_1k shared services.cost services.langfuse
          (variant.shape.common u) asked (get_tenant_cost asked (look w))
      ∙ rw decided.stage.tenant_id refl
