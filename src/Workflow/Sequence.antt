-- ===== src/Workflow/Sequence.antt =====
-- `run_node` and `run_all_nodes` of app/workflows/langgraph/risk_workflow.py and
-- compliance_workflow.py: the nodes in their order, those that are done skipped, each in a span.
use ai_risk_engine.Exec.{Exec, pure, finally, when_some, ◌>>=◌, ◌>>◌}
use ai_risk_engine.Prelude.{String, Option, none, some, if◌then◌else◌, is_empty}
use ai_risk_engine.Workflow.Nodes.{perf_counter}
use ai_risk_engine.Workflow.Services.{Services, TracingService, Span, SpanArgs}
use ai_risk_engine.Workflow.State.{node_done}
use ai_risk_engine.Workflow.Variant.{Variant}

module _ {W S : Type 0} (variant : Variant W S) (services : Services W S) where
  open variant.shape use {common}
  open services use {node, metrics, tracing}

  abbrev node_args : String → String → S → SpanArgs
  node_args trace parent s = record {
    trace_id = some trace;
    parent_span_id = some parent;
    tenant_id = some (common s).tenant_id;
    correlation_id = some (common s).correlation_id;
    model_version = some (common s).model_version;
    prompt_version = some (common s).prompt_version;
  }

  -- `async with self._tracing.start_span(…)`
  unfoldable pub with_span : TracingService W → String → SpanArgs → (Span → Exec W S) → Exec W S
  unfolding ◌>>=◌
  with_span t name args body = do
    span ← t.start_span name args
    finally (body span) (t.end_span span)

  -- The inner `if self._tracing and trace_id`; `root` is the root span, where there is one.
  unfoldable pub traced : Option (TracingService W) → Option Span → String → S → Exec W S → Exec W S
  traced none root name current run_fn = run_fn
  traced (some t) none name current run_fn = run_fn
  traced (some t) (some root) name current run_fn =
      if is_empty root.trace_id
      then run_fn
      else with_span t name (node_args root.trace_id root.span_id current) (λ _. run_fn)

  -- `run_node`
  unfoldable pub run_node : Option Span → String → S → Exec W S → Exec W S
  unfolding pure ◌>>=◌
  run_node root name current run_fn = do
    node_start ← perf_counter node
    out ← traced tracing root name current run_fn
    node_end ← perf_counter node
    when_some metrics (λ m. do
      m.observe_latency "node_execution_latency" (node.latency_ms node_start node_end) (some name)
      m.increment "model_usage_count" none none
      m.increment "prompt_usage_count" none none)
    pure out

  -- `if not _node_done(current, name): current = await run_node(name, …)`
  unfoldable pub run_unless_done : Option Span → String → (S → Exec W S) → S → Exec W S
  unfolding pure
  run_unless_done root name run_fn current =
      if node_done (common current) name
      then pure current
      else run_node root name current (run_fn current)

  -- `run_all_nodes`
  unfoldable pub run_all_nodes : Option Span → S → Exec W S
  unfolding ◌>>=◌
  run_all_nodes root s₀ = do
    s₁ ← run_unless_done root "retrieval" (variant.retrieval node) s₀
    s₂ ← run_unless_done root "policy_validation" (variant.policy_validation node) s₁
    s₃ ← run_unless_done root "risk_scoring" (variant.risk_scoring node) s₂
    s₄ ← run_unless_done root "guardrails" (variant.guardrails node) s₃
    run_unless_done root "decision" (variant.decision node) s₄

  -- The root span around the nodes, if there is tracing.
  unfoldable pub run_traced : Option (TracingService W) → S → Exec W S
  run_traced none current = run_all_nodes none current
  run_traced (some t) current =
      with_span t variant.workflow_name
        (record {
          trace_id = none;
          parent_span_id = none;
          tenant_id = some (common current).tenant_id;
          correlation_id = some (common current).correlation_id;
          model_version = none;
          prompt_version = none;
        })
        (λ root. run_all_nodes (some root) current)
