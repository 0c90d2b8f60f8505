-- ===== src/Workflow/Run/Keeps.antt =====
-- What a run leaves alone up to its report: what its collaborators other than the cost tracker and
-- Langfuse leave alone.
use ai_risk_engine.Errors.{Error, model_not_approved_error, prompt_not_approved_error}
use ai_risk_engine.Exec.{Exec}
use ai_risk_engine.Exec.Keeps.{
  Keeps, Keeps-pure, Keeps-lift, Keeps-throw, Keeps-if, Keeps-bind, Keeps-when_some, Keeps-finally,
}
use ai_risk_engine.Exec.Triple.{IfSome}
use ai_risk_engine.Governance.Models.{ModelRegistryRepository, get_approved_model, get_model}
use ai_risk_engine.Governance.Prompts.{PromptRegistryRepository, get_approved_prompt, get_prompt}
use ai_risk_engine.Observability.Failures.{isinstance}
use ai_risk_engine.Prelude.{ℕ, String, Option, none, some, [], ◌∷◌, is_empty}
use ai_risk_engine.Prelude.Int.{ℤ}
use ai_risk_engine.Workflow.Nodes.Keeps.{NodeKeeps, Keeps-perf_counter, Keeps-log_action}
use ai_risk_engine.Workflow.Nodes.{NodeServices}
use ai_risk_engine.Workflow.Sequence.{
  with_span, traced, run_node, run_unless_done, run_all_nodes, run_traced,
}
use ai_risk_engine.Workflow.Variant.{Variant}
use ai_risk_engine.Workflow.Versions.{
  model_version_of, prompt_version_of, resolve_versions, on_governance_error,
}
use ai_risk_engine.Workflow.Services.{
  Services, TracingService, Span, SpanArgs, DecisionFacts, MetricsCollector,
}
use ai_risk_engine.Workflow.State.{node_done}

-- The nodes of a variant leave alone what the audit log and the clocks leave alone.
pub record VariantKeeps {W V S : Type 0} (variant : Variant W S) (services : NodeServices W)
    (look : W → V) : Type 0 where
  pub retrieval : (s : S) → Keeps look (variant.retrieval services s)
  pub policy_validation : (s : S) → Keeps look (variant.policy_validation services s)
  pub risk_scoring : (s : S) → Keeps look (variant.risk_scoring services s)
  pub guardrails : (s : S) → Keeps look (variant.guardrails services s)
  pub decision : (s : S) → Keeps look (variant.decision services s)

module _ {W V : Type 0} (look : W → V) where
  abbrev pub ModelsKeep : ModelRegistryRepository W → Type 0
  ModelsKeep r =
      ((n v : String) → Keeps look (r.get n v)) × ((n : String) → Keeps look (r.get_latest n))

  abbrev pub PromptsKeep : PromptRegistryRepository W → Type 0
  PromptsKeep r = (n : String) (v : Option ℕ) → Keeps look (r.get n v)

  abbrev pub MetricsKeep : MetricsCollector W → Type 0
  MetricsKeep m =
      ((n : String) (t c : Option String) → Keeps look (m.increment n t c))
      × ((n : String) (x : ℤ) (l : Option String) → Keeps look (m.observe_latency n x l))

  abbrev pub TracingKeeps : TracingService W → Type 0
  TracingKeeps t =
      ((n : String) (a : SpanArgs) → Keeps look (t.start_span n a))
      × ((s : Span) → Keeps look (t.end_span s))

-- The collaborators other than the cost tracker and Langfuse leave alone what `look` sees.
pub record OthersKeep {W V S : Type 0} (services : Services W S) (look : W → V) : Type 0 where
  pub node : NodeKeeps services.node look
  pub models : IfSome (ModelsKeep look) services.models
  pub prompts : IfSome (PromptsKeep look) services.prompts
  pub metrics : IfSome (MetricsKeep look) services.metrics
  pub tracing : IfSome (TracingKeeps look) services.tracing
  pub evaluations :
      IfSome (λ v. (d : DecisionFacts) → Keeps look (v.evaluate_decision d)) services.evaluation
  pub stored : IfSome (λ st. (id : String) (s : S) → Keeps look (st.set_state id s)) services.store

module _ {W V S : Type 0} {variant : Variant W S} {services : Services W S} {look : W → V}
    (nodes : VariantKeeps variant services.node look) (others : OthersKeep services look) where
  open services use {node, store, models, prompts, metrics, tracing, cost, langfuse, evaluation}

  Keeps-model_version_of :
      (o : Option (ModelRegistryRepository W))
      → IfSome (ModelsKeep look) o
      → Keeps look (model_version_of variant services o)
  unfolding model_version_of get_approved_model get_model
  Keeps-model_version_of none h = Keeps-pure _
  Keeps-model_version_of (some r) h =
      Keeps-bind (Keeps-bind (h.1 variant.model_name) λ found. Keeps-lift _) λ m. Keeps-pure _

  Keeps-prompt_version_of :
      (o : Option (PromptRegistryRepository W))
      → IfSome (PromptsKeep look) o
      → Keeps look (prompt_version_of variant services o)
  unfolding prompt_version_of get_approved_prompt get_prompt
  Keeps-prompt_version_of none h = Keeps-pure _
  Keeps-prompt_version_of (some r) h =
      Keeps-bind (Keeps-bind (h variant.prompt_name none) λ found. Keeps-lift _) λ p. Keeps-pure _

  pub Keeps-resolve_versions : (s : S) → Keeps look (resolve_versions variant services s)
  unfolding resolve_versions
  Keeps-resolve_versions s =
      Keeps-bind (Keeps-model_version_of models others.models)
        λ m. Keeps-bind (Keeps-prompt_version_of prompts others.prompts) λ p. Keeps-pure _

  pub Keeps-on_governance_error :
      (s : S) (e : Error) → Keeps look (on_governance_error variant services s e)
  unfolding on_governance_error
  Keeps-on_governance_error s e =
      Keeps-if (isinstance e.cls (model_not_approved_error ∷ prompt_not_approved_error ∷ []))
        (Keeps-bind (Keeps-log_action others.node _) λ _. Keeps-throw e) (Keeps-throw e)

  Keeps-with_span :
      (t : TracingService W) (name : String) (args : SpanArgs) {body : Span → Exec W S}
      → TracingKeeps look t
      → ((s : Span) → Keeps look (body s))
      → Keeps look (with_span variant services t name args body)
  unfolding with_span
  Keeps-with_span t name args keeps inner =
      Keeps-bind (keeps.0 name args) λ s. Keeps-finally (inner s) (keeps.1 s)

  Keeps-traced :
      (o : Option (TracingService W)) (root : Option Span) (name : String) (s : S) {m : Exec W S}
      → IfSome (TracingKeeps look) o
      → Keeps look m
      → Keeps look (traced variant services o root name s m)
  unfolding traced
  Keeps-traced none root name s keeps h = h
  Keeps-traced (some t) none name s keeps h = h
  Keeps-traced (some t) (some root) name s keeps h =
      Keeps-if (is_empty root.trace_id) h (Keeps-with_span t name _ keeps (λ _. h))

  Keeps-run_node :
      (root : Option Span) (name : String) (s : S) {m : Exec W S}
      → Keeps look m
      → Keeps look (run_node variant services root name s m)
  unfolding run_node
  Keeps-run_node root name s h = Keeps-bind (Keeps-perf_counter others.node) λ node_start.
      Keeps-bind (Keeps-traced tracing root name s others.tracing h) λ out.
        Keeps-bind (Keeps-perf_counter others.node) λ node_end.
          Keeps-bind
            (Keeps-when_some (MetricsKeep look) metrics _ others.metrics (λ m keeps.
              Keeps-bind (keeps.1 _ _ _) λ _. Keeps-bind (keeps.0 _ _ _) λ _. keeps.0 _ _ _))
            λ _. Keeps-pure out

  Keeps-run_unless_done :
      (root : Option Span) (name : String) (f : S → Exec W S) (s : S)
      → Keeps look (f s)
      → Keeps look (run_unless_done variant services root name f s)
  unfolding run_unless_done
  Keeps-run_unless_done root name f s h =
      Keeps-if (node_done (variant.shape.common s) name) (Keeps-pure s)
        (Keeps-run_node root name s h)

  Keeps-run_all_nodes :
      (root : Option Span) (s : S) → Keeps look (run_all_nodes variant services root s)
  unfolding run_all_nodes
  Keeps-run_all_nodes root s =
      Keeps-bind (Keeps-run_unless_done root "retrieval" _ s (nodes.retrieval s)) λ s₁.
        Keeps-bind
          (Keeps-run_unless_done root "policy_validation" _ s₁ (nodes.policy_validation s₁))
          λ s₂.
            Keeps-bind (Keeps-run_unless_done root "risk_scoring" _ s₂ (nodes.risk_scoring s₂))
              λ s₃.
                Keeps-bind (Keeps-run_unless_done root "guardrails" _ s₃ (nodes.guardrails s₃))
                  λ s₄. Keeps-run_unless_done root "decision" _ s₄ (nodes.decision s₄)

  pub Keeps-run_traced :
      (o : Option (TracingService W)) (s : S)
      → IfSome (TracingKeeps look) o
      → Keeps look (run_traced variant services o s)
  unfolding run_traced
  Keeps-run_traced none s h = Keeps-run_all_nodes none s
  Keeps-run_traced (some t) s h =
      Keeps-with_span t variant.workflow_name _ h (λ root. Keeps-run_all_nodes (some root) s)
