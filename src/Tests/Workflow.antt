-- ===== src/Tests/Workflow.antt =====
-- Witnesses for the theorems on app/workflows/langgraph.
use ai_risk_engine.Exec.{Result, ok, err, pure, lift, catch, finally, when_some, ◌>>=◌}
use ai_risk_engine.Governance.Audit.{AuditRecord, utc_now, log_action}
use ai_risk_engine.Json.{Fields, str, dict, end, field, get, get_or, truthy, equals_text}
use ai_risk_engine.Prelude.{
  ◌≡◌, refl, ap, subst, eq_refl, true, String, Option, List, none, some, [], ◌∷◌,
}
use ai_risk_engine.Tests.World.{
  World, Entry, empty_world, states, counters, spans, node_services, find_state,
}
use ai_risk_engine.Workflow.Nodes.{
  metadata_of, policy_of, score_of, guardrail_of, decision_of, is_over_threshold, is_text,
  perf_counter, finish_node, retrieve_context, validate_policy, score_risk, apply_guardrails,
  make_decision,
}
use ai_risk_engine.Workflow.Risk.{risk_shape, risk_variant, execute, run}
use ai_risk_engine.Workflow.Risk.Outcome.{execute_decides, risk-NodesAct, run_completes, IsDecided}
use ai_risk_engine.Workflow.Run
use ai_risk_engine.Workflow.Versions
use ai_risk_engine.Workflow.Run.{report, evaluate}
use ai_risk_engine.Workflow.Sequence.{
  run_traced, with_span, traced, run_node, run_unless_done, run_all_nodes,
}
use ai_risk_engine.Workflow.Versions.{model_version_of, prompt_version_of}
use ai_risk_engine.Workflow.Run.Outcome.{Misses, Stores}
use ai_risk_engine.Workflow.Run.Replay.{IsStateStore, IsBeside, run_replays}
use ai_risk_engine.Workflow.Run.Specs.{Behaves}
use ai_risk_engine.Workflow.Services.{Services, WorkflowStateStore}
use ai_risk_engine.Workflow.State.{RiskState, trail_has, node_done}

abbrev pub services_with : {S : Type 0} → WorkflowStateStore World S → Services World S
services_with store = record {
  node = node_services;
  store = some store;
  models = none;
  prompts = none;
  metrics = some counters;
  tracing = some spans;
  cost = none;
  has_failure_classifier = true;
  langfuse = none;
  evaluation = none;
}

abbrev services : Services World RiskState
services = services_with states

abbrev event : Fields
event =
    field "event_type" (str "risk")
      (field "metadata" (dict (field "category" (str "sensitive") end)) end)

abbrev pub new_state : RiskState
new_state = record {
  event_id = "e1";
  tenant_id = "t1";
  correlation_id = "c1";
  raw_event = event;
  retrieved_context = none;
  policy_result = none;
  risk_score = none;
  guardrail_result = none;
  final_decision = none;
  model_version = "simulated@1";
  prompt_version = 1;
  audit_trail = [];
  idempotency_key = none;
  evaluation_result = none;
}

abbrev result : Result RiskState × World
result = execute services 0 new_state empty_world

abbrev state_of : Result RiskState → RiskState
state_of (ok u) = u
state_of (err e) = new_state

result_ok : execute services 0 new_state empty_world ≡ (ok (state_of result.0), result.1)
unfolding Run.execute Versions.resolve_versions model_version_of prompt_version_of run_traced
    with_span traced run_node run_unless_done run_all_nodes report evaluate pure lift catch finally
    when_some ◌>>=◌ utc_now log_action metadata_of policy_of score_of guardrail_of decision_of
    is_over_threshold is_text perf_counter finish_node retrieve_context validate_policy score_risk
    apply_guardrails make_decision get get_or truthy equals_text trail_has node_done
result_ok = refl

execute_decides_example : IsDecided new_state (state_of result.0)
execute_decides_example =
    execute_decides services 0 new_state empty_world result.1 (state_of result.0) refl result_ok

abbrev view : World → String → Option RiskState
view w = find_state w.states

saved_is_read :
    (k : String) (u : RiskState) (w : World)
    → view (record w { states = record { key = k; value = u } ∷ w.states }) k ≡ some u
saved_is_read k u w = rw (eq_refl k) refl

states-IsStateStore : IsStateStore states view
states-IsStateStore = record {
  reads = λ k w. refl;
  writes = λ k u w w' h.
      subst (λ (x : World). view x k ≡ some u) (ap (λ (r : Result (Unit {0}) × World). r.1) h)
        (saved_is_read k u w);
}

-- Everything but the counters and the clock.
abbrev Lasting : Type 0
Lasting = List AuditRecord × List (Entry RiskState)

abbrev lasting : World → Lasting
lasting w = (w.trail, w.states)

beside : {V : Type 0} (f : Lasting → V) → IsBeside services (λ w. f (lasting w))
beside f = record { clock = λ w. refl; metrics = λ n t c w. (refl, refl) }

abbrev first_run : Result RiskState × World
first_run = run services new_state empty_world

first_run_ok : run services new_state empty_world ≡ (ok (state_of first_run.0), first_run.1)
unfolding Run.run Run.look_up_or_execute Run.on_failure Run.execute Versions.resolve_versions
    model_version_of prompt_version_of run_traced with_span traced run_node run_unless_done
    run_all_nodes report evaluate pure lift catch finally when_some ◌>>=◌ utc_now log_action
    metadata_of policy_of score_of guardrail_of decision_of is_over_threshold is_text perf_counter
    finish_node retrieve_context validate_policy score_risk apply_guardrails make_decision get
    get_or truthy equals_text trail_has node_done
first_run_ok = refl

run_replays_example :
    (w'' : World) × (run services new_state first_run.1 ≡ (ok (state_of first_run.0), w''))
    × (lasting w'' ≡ lasting first_run.1)
run_replays_example =
    run_replays services (risk-NodesAct node_services) states view lasting states-IsStateStore
      (beside (λ l. find_state l.1)) (beside (λ l. l)) new_state new_state empty_world first_run.1
      (state_of first_run.0) refl refl refl first_run_ok

-- Nothing is stored for the event.
abbrev IsNew : World → Type 0
IsNew w = find_state w.states "e1" ≡ none

abbrev pub Anything : World → Type 0
Anything w = Unit

never_raises : Behaves risk_variant services IsNew (λ _ _. ⊥)
never_raises = record {
  node = record {
    perf_keeps = λ w p. p;
    now_keeps = λ w p. p;
    audit_keeps = λ r. record { at = λ w p. p };
  };
  models = tt;
  prompts = tt;
  governance = λ s e. record { at = λ w never. absurd never };
  metrics = ((λ n t c. record { at = λ w p. p }), (λ n x l. record { at = λ w p. p }));
  tracing = (
    (λ n a. record { at = λ w p. p }),
    (λ s. record { at = λ w p. p }),
    (λ s e. record { at = λ w never. absurd never }),
  );
  costs = tt;
  generations = tt;
  evaluations = tt;
}

stores : Stores risk_shape services IsNew Anything
unfolding when_some
stores u = record { at = λ w p. tt }

misses : Misses risk_shape IsNew new_state states
misses = record { at = λ w p. (p, p) }

pub metadata_well : metadata_of event ≡ ok (field "category" (str "sensitive") end)
unfolding metadata_of get truthy
metadata_well = refl

run_completes_example :
    (out : RiskState) × (w' : World) × (run services new_state empty_world ≡ (ok out, w'))
    × Anything w'
    × IsDecided new_state out
run_completes_example =
    run_completes never_raises stores new_state refl (field "category" (str "sensitive") end)
      metadata_well empty_world refl misses
