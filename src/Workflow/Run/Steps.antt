-- ===== src/Workflow/Run/Steps.antt =====
-- A whole run of a workflow on a new event: the steps around the nodes leave alone what the nodes
-- decide.
use ai_risk_engine.Errors.{Error}
use ai_risk_engine.Exec.{err, catch, when_some}
use ai_risk_engine.Exec.Triple.{
  Triple, Triple-pure, Triple-bind, Triple-if, Triple-weaken, Triple-catch, Triple-given,
  Triple-when_some, IfSome,
}
use ai_risk_engine.Governance.Models.{ModelRegistryRepository, get_approved_model}
use ai_risk_engine.Governance.Prompts.{PromptRegistryRepository, get_approved_prompt}
use ai_risk_engine.Json.{Fields}
use ai_risk_engine.Prelude.{
  ℕ, ◌≡◌, refl, ◌∙◌, Bool, true, false, String, Option, none, some, [], if◌then◌else◌,
}
use ai_risk_engine.Workflow.Nodes.{metadata_of}
use ai_risk_engine.Workflow.Nodes.Specs.{Triple-perf_counter}
use ai_risk_engine.Workflow.Run.{report, evaluate, execute}
use ai_risk_engine.Workflow.Sequence.{run_all_nodes, run_traced}
use ai_risk_engine.Workflow.Variant.{Shape, Variant}
use ai_risk_engine.Workflow.Versions.{
  model_version_of, prompt_version_of, resolve_versions, on_governance_error,
}
use ai_risk_engine.Workflow.Run.Contract.{Reading, NodesAct}
use ai_risk_engine.Workflow.Run.Correct.{IsDecided, Triple-run_all_nodes}
use ai_risk_engine.Workflow.Run.Specs.{Behaves, TracingKeeps, Triple-with_span}
use ai_risk_engine.Workflow.Services.{Services, TracingService, EvaluationService}
use ai_risk_engine.Workflow.State.{RiskState}

module _ {S : Type 0} {shape : Shape S} (reading : Reading shape) where
  open shape use {common, with_common}
  open reading use {escalates, Agrees}

  -- The states differ in their versions at most.
  record Reversioned (s u : S) : Type 0 where
    event_id : (common u).event_id ≡ (common s).event_id
    tenant_id : (common u).tenant_id ≡ (common s).tenant_id
    correlation_id : (common u).correlation_id ≡ (common s).correlation_id
    raw_event : (common u).raw_event ≡ (common s).raw_event
    audit_trail : (common u).audit_trail ≡ (common s).audit_trail
    same : escalates u ≡ escalates s

  abbrev reversioned : S → String → ℕ → RiskState
  reversioned s v n = record (common s) { model_version = v; prompt_version = n }

  Reversioned-with_common :
      (s : S) (v : String) (n : ℕ) → Reversioned s (with_common s (reversioned s v n))
  Reversioned-with_common s v n =
      let updated = reading.common-with_common s (reversioned s v n) in
      record {
        event_id = rw updated refl;
        tenant_id = rw updated refl;
        correlation_id = rw updated refl;
        raw_event = rw updated refl;
        audit_trail = rw updated refl;
        same = reading.escalates-with_common s _;
      }

  Reversioned-if : (b : Bool) (s u : S) → Reversioned s u → Reversioned s (if b then u else s)
  Reversioned-if true s u h = h
  Reversioned-if false s u h = record {
    event_id = refl;
    tenant_id = refl;
    correlation_id = refl;
    raw_event = refl;
    audit_trail = refl;
    same = refl;
  }

  IsDecided-Reversioned :
      (s u out : S) → Reversioned s u → IsDecided reading u out → IsDecided reading s out
  IsDecided-Reversioned s u out same d = record {
    stage = record {
      event_id = d.stage.event_id ∙ same.event_id;
      tenant_id = d.stage.tenant_id ∙ same.tenant_id;
      correlation_id = d.stage.correlation_id ∙ same.correlation_id;
      raw_event = d.stage.raw_event ∙ same.raw_event;
      nodes = d.stage.nodes;
    };
    decision = rw (← same.raw_event, ← same.same) d.decision;
    score = d.score;
    same = d.same ∙ same.same;
    agrees = d.agrees;
  }

  abbrev evaluated : S → Fields → RiskState
  evaluated u result = record (common u) { evaluation_result = some result }

  IsDecided-evaluated :
      (s u : S) (result : Fields)
      → IsDecided reading s u
      → IsDecided reading s (with_common u (evaluated u result))
  IsDecided-evaluated s u result d =
      let updated = reading.common-with_common u (evaluated u result) in
      record {
        stage = rw updated (record {
          event_id = d.stage.event_id;
          tenant_id = d.stage.tenant_id;
          correlation_id = d.stage.correlation_id;
          raw_event = d.stage.raw_event;
          nodes = d.stage.nodes;
        });
        decision = rw updated d.decision;
        score = rw updated d.score;
        same = reading.escalates-with_common u _ ∙ d.same;
        agrees = reading.Agrees-with_common u _ refl d.agrees;
      }

module _ {W S : Type 0} {variant : Variant W S} (reading : Reading variant.shape)
    {services : Services W S} {P : W → Type 0} {E : Error → W → Type 0}
    (behaves : Behaves variant services P E) where
  Triple-model_version_of :
      (o : Option (ModelRegistryRepository W))
      → IfSome
          (λ r.
            Triple P
              (get_approved_model r services.node.audit variant.model_name none)
              (λ _ w. P w)
              E)
          o
      → Triple P (model_version_of variant services o) (λ _ w. P w) E
  unfolding model_version_of
  Triple-model_version_of none t = Triple-pure _ (λ w p. p)
  Triple-model_version_of (some r) t = Triple-bind t λ m. Triple-pure _ (λ w p. p)

  Triple-prompt_version_of :
      (o : Option (PromptRegistryRepository W))
      → IfSome (λ r. Triple P (get_approved_prompt r variant.prompt_name none) (λ _ w. P w) E) o
      → Triple P (prompt_version_of variant services o) (λ _ w. P w) E
  unfolding prompt_version_of
  Triple-prompt_version_of none t = Triple-pure _ (λ w p. p)
  Triple-prompt_version_of (some r) t = Triple-bind t λ m. Triple-pure _ (λ w p. p)

  Triple-resolve_versions :
      (s : S)
      → Triple P (resolve_versions variant services s) (λ u w. P w × Reversioned reading s u) E
  unfolding resolve_versions
  Triple-resolve_versions s =
      Triple-bind (Triple-model_version_of services.models behaves.models) λ v.
        Triple-bind (Triple-prompt_version_of services.prompts behaves.prompts) λ n.
          Triple-pure _
            (λ w p. (p, Reversioned-if reading _ s _ (Reversioned-with_common reading s v n)))

  -- A governance error ends the run.
  Triple-resolved :
      (s : S)
      → Triple P
          (catch (resolve_versions variant services s) (on_governance_error variant services s))
          (λ u w. P w × Reversioned reading s u)
          E
  Triple-resolved s =
      Triple-catch (Triple-resolve_versions s)
        λ e. Triple-weaken (behaves.governance s e) (λ w p. p) (λ u w never. absurd never)

  Triple-evaluate :
      (s : S) (o : Option (EvaluationService W)) (u : S)
      → IfSome (λ v. (d : _) → Triple P (v.evaluate_decision d) (λ _ w. P w) E) o
      → IsDecided reading s u
      → Triple P (evaluate variant services o u) (λ out w. P w × IsDecided reading s out) E
  unfolding evaluate
  Triple-evaluate s none u t d = Triple-pure u (λ w p. (p, d))
  Triple-evaluate s (some v) u t d =
      Triple-bind (t _)
        λ result. Triple-pure _ (λ w p. (p, IsDecided-evaluated reading s u result d))

  Triple-report : (start : ℕ) (u : S) → Triple P (report variant services start u) (λ _ w. P w) E
  unfolding report
  Triple-report start u =
      Triple-bind
        (Triple-when_some services.metrics _ behaves.metrics λ m keeps.
          Triple-if (variant.needs_approval u) _ _ (λ _. keeps.0 _ _ _)
            (λ _. Triple-pure _ (λ w p. p)))
        λ _. Triple-bind (Triple-perf_counter behaves.node) λ end_time.
          Triple-bind
            (Triple-when_some services.metrics _ behaves.metrics (λ m keeps. keeps.1 _ _ _))
            λ _.
              Triple-bind
                (Triple-when_some services.cost _ behaves.costs (λ c keeps. keeps _ _ _ _))
                λ _. Triple-when_some services.langfuse _ behaves.generations (λ l keeps. keeps _)

module _ {W S : Type 0} {variant : Variant W S} {reading : Reading variant.shape}
    {services : Services W S} {P : W → Type 0} {E : Error → W → Type 0}
    (acts : NodesAct variant reading services.node) (behaves : Behaves variant services P E) (s : S)
    (fresh : (variant.shape.common s).audit_trail ≡ [])
    (bad : (e : Error)
      → metadata_of (variant.shape.common s).raw_event ≡ err e
      → (w : W) → P w
      → E e w) where
  Triple-run_traced :
      (o : Option (TracingService W)) (u : S)
      → IfSome (TracingKeeps behaves) o
      → Reversioned reading s u
      → Triple P (run_traced variant services o u) (λ out w. P w × IsDecided reading s out) E
  unfolding run_traced
  Triple-run_traced o u keeps same =
      elim o
          as (λ o.
            IfSome (TracingKeeps behaves) o
            → Triple P (run_traced variant services o u) (λ out w. P w × IsDecided reading s out)
                E) [
                  | none ↦ λ k. nodes none
                  | some t ↦ λ k.
                      Triple-with_span behaves t variant.workflow_name _ k
                        (λ root. nodes (some root))
                ]
        keeps
    where
      nodes :
          (root : _)
          → Triple P
              (run_all_nodes variant services root u)
              (λ out w. P w × IsDecided reading s out)
              E
      nodes root =
          Triple-weaken
            (Triple-run_all_nodes acts behaves u (same.audit_trail ∙ fresh)
              (λ e h. bad e (rw (← same.raw_event) h)) root)
            (λ w p. p) (λ out w q. (q.0, IsDecided-Reversioned reading s u out same q.1))

  -- What a run returns is decided; `Q` is what the store then holds.
  pub Triple-execute :
      (start : ℕ) {Q : S → W → Type 0}
      → ((u : S)
          → Triple P
              (when_some services.store (λ st. st.set_state (variant.shape.common u).event_id u))
              (λ _ w. Q u w)
              E)
      → Triple P (execute variant services start s) (λ u w. Q u w × IsDecided reading s u) E
  unfolding execute
  Triple-execute start {Q} stored = Triple-bind (Triple-resolved reading behaves s) λ resolved.
      Triple-bind (Triple-given (Triple-run_traced services.tracing resolved behaves.tracing))
        λ decided. Triple-given λ d. Triple-bind (Triple-report reading behaves start decided) λ _.
          Triple-bind
            (Triple-evaluate reading behaves s services.evaluation decided behaves.evaluations d)
            λ out. Triple-given λ d'. Triple-bind (stored out) λ _. Triple-pure out (λ w q. (q, d'))
