-- ===== src/Workflow/Run/Specs.antt =====
-- Rules for the steps of a workflow, for collaborators that keep a condition `P` and raise
-- only under `E`. With `E` impossible they never raise; with both trivial they may do anything.
use ai_risk_engine.Errors.{Error}
use ai_risk_engine.Exec.{Exec}
use ai_risk_engine.Exec.Triple.{
  Triple, Triple-pure, Triple-bind, Triple-if, Triple-given, Triple-finally, Triple-frame,
  Triple-when_some, IfSome,
}
use ai_risk_engine.Governance.Models.{get_approved_model}
use ai_risk_engine.Governance.Prompts.{get_approved_prompt}
use ai_risk_engine.Prelude.{◌≡◌, false, String, Option, none, some, is_empty}
use ai_risk_engine.Prelude.Int.{ℤ}
use ai_risk_engine.Workflow.Nodes.Specs.{NodeBehaves, Triple-perf_counter}
use ai_risk_engine.Workflow.Sequence.{with_span, traced, run_node, run_unless_done}
use ai_risk_engine.Workflow.Variant.{Variant}
use ai_risk_engine.Workflow.Versions.{on_governance_error}
use ai_risk_engine.Workflow.Services.{
  Services, TracingService, Span, SpanArgs, Generation, DecisionFacts,
}
use ai_risk_engine.Workflow.State.{node_done}

pub record Behaves {W S : Type 0} (variant : Variant W S) (services : Services W S) (P : W → Type 0)
    (E : Error → W → Type 0) : Type 0 where
  pub node : NodeBehaves services.node P E
  pub models :
      IfSome
        (λ r.
          Triple P
            (get_approved_model r services.node.audit variant.model_name none)
            (λ _ w. P w)
            E)
        services.models
  pub prompts :
      IfSome
        (λ r. Triple P (get_approved_prompt r variant.prompt_name none) (λ _ w. P w) E)
        services.prompts
  pub governance :
      (s : S) (e : Error) → Triple (E e) (on_governance_error variant services s e) (λ _ _. ⊥) E
  pub metrics :
      IfSome
        (λ m.
          ((n : String) (t c : Option String) → Triple P (m.increment n t c) (λ _ w. P w) E)
          × ((n : String) (x : ℤ) (l : Option String)
              → Triple P (m.observe_latency n x l) (λ _ w. P w) E))
        services.metrics
  pub tracing :
      IfSome
        (λ t.
          ((n : String) (a : SpanArgs) → Triple P (t.start_span n a) (λ _ w. P w) E)
          × ((s : Span) → Triple P (t.end_span s) (λ _ w. P w) E)
          × ((s : Span) (e : Error) → Triple (E e) (t.end_span s) (λ _ w. E e w) E))
        services.tracing
  pub costs :
      IfSome
        (λ c. (t : String) (x : ℤ) (m r : String) → Triple P (c.add_cost t x m r) (λ _ w. P w) E)
        services.cost
  pub generations :
      IfSome
        (λ l. (g : Generation) → Triple P (l.log_generation g) (λ _ w. P w) E)
        services.langfuse
  pub evaluations :
      IfSome
        (λ v. (d : DecisionFacts) → Triple P (v.evaluate_decision d) (λ _ w. P w) E)
        services.evaluation

module _ {W S : Type 0} {variant : Variant W S} {services : Services W S} {P : W → Type 0}
    {E : Error → W → Type 0} (behaves : Behaves variant services P E) where
  -- `TracingKeeps` is what `behaves.tracing` says of the service that is there.
  abbrev pub TracingKeeps : TracingService W → Type 0
  TracingKeeps t =
      ((n : String) (a : SpanArgs) → Triple P (t.start_span n a) (λ _ w. P w) E)
      × ((s : Span) → Triple P (t.end_span s) (λ _ w. P w) E)
      × ((s : Span) (e : Error) → Triple (E e) (t.end_span s) (λ _ w. E e w) E)

  pub Triple-with_span :
      {F : S → Type 0} (t : TracingService W) (name : String) (args : SpanArgs)
      {body : Span → Exec W S}
      → TracingKeeps t
      → ((s : Span) → Triple P (body s) (λ u w. P w × F u) E)
      → Triple P (with_span variant services t name args body) (λ u w. P w × F u) E
  unfolding with_span
  Triple-with_span t name args keeps inner =
      Triple-bind (keeps.0 name args)
        λ s. Triple-finally (inner s) (λ u. Triple-frame (keeps.1 s)) (λ e. keeps.2 s e)

  Triple-traced :
      {F : S → Type 0} (o : Option (TracingService W)) (root : Option Span) (name : String) (s : S)
      {m : Exec W S}
      → IfSome TracingKeeps o
      → Triple P m (λ u w. P w × F u) E
      → Triple P (traced variant services o root name s m) (λ u w. P w × F u) E
  unfolding traced
  Triple-traced none root name s keeps t = t
  Triple-traced (some k) none name s keeps t = t
  Triple-traced (some k) (some root) name s keeps t =
      Triple-if (is_empty root.trace_id) _ _ (λ _. t)
        (λ _. Triple-with_span k name _ keeps (λ _. t))

  -- A node in its span and with its metrics does to the state what the node does.
  Triple-run_node :
      {F : S → Type 0} (root : Option Span) (name : String) (s : S) {m : Exec W S}
      → Triple P m (λ u w. P w × F u) E
      → Triple P (run_node variant services root name s m) (λ u w. P w × F u) E
  unfolding run_node
  Triple-run_node root name s t = Triple-bind (Triple-perf_counter behaves.node) λ node_start.
      Triple-bind (Triple-traced services.tracing root name s behaves.tracing t) λ out.
        Triple-given λ f. Triple-bind (Triple-perf_counter behaves.node) λ node_end.
          Triple-bind
            (Triple-when_some services.metrics _ behaves.metrics (λ m keeps.
              Triple-bind (keeps.1 _ _ _) λ _. Triple-bind (keeps.0 _ _ _) λ _. keeps.0 _ _ _))
            λ _. Triple-pure out (λ w p. (p, f))

  -- A node that the trail does not show yet is run.
  pub Triple-run_unless_done :
      {F : S → Type 0} (root : Option Span) (name : String) (f : S → Exec W S) (s : S)
      → node_done (variant.shape.common s) name ≡ false
      → Triple P (f s) (λ u w. P w × F u) E
      → Triple P (run_unless_done variant services root name f s) (λ u w. P w × F u) E
  unfolding run_unless_done
  Triple-run_unless_done root name f s fresh t = rw fresh (Triple-run_node root name s t)
