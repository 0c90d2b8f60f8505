-- ===== src/Workflow/Run/Replay.antt =====
-- A second `run` on an event, app/workflows/langgraph/risk_workflow.py and compliance_workflow.py,
-- over a state store.
use ai_risk_engine.Errors.{Error}
use ai_risk_engine.Exec.{Result, returned, ok, err, pure, catch, when_some, ◌>>=◌, ◌>>◌}
use ai_risk_engine.Exec.Triple.{
  Outcome, Triple, Triple-pure, Triple-throw, Triple-bind, Triple-any, Triple-weaken, Triple-catch,
  Triple-ok, IfSome,
}
use ai_risk_engine.Prelude.{ℕ, ◌≡◌, refl, sym, ap, ◌∙◌, String, Option, none, some, []}
use ai_risk_engine.Workflow.Nodes.{perf_counter}
use ai_risk_engine.Workflow.Run.{execute, cached_or, look_up_or_execute, on_failure, run}
use ai_risk_engine.Workflow.Run.Contract.{Reading, NodesAct}
use ai_risk_engine.Workflow.Run.Outcome.{Behaves-any}
use ai_risk_engine.Workflow.Run.Steps.{Triple-execute}
use ai_risk_engine.Workflow.Services.{Services, MetricsCollector, WorkflowStateStore}
use ai_risk_engine.Workflow.Variant.{Variant}

-- Behaviour of the store within the time to live: a read answers with what `view` sees and changes
-- nothing, and a write that returned is seen.
pub record IsStateStore {W S : Type 0} (store : WorkflowStateStore W S)
    (view : W → String → Option S) : Type 0 where
  pub reads : (k : String) (w : W) → store.get_state k w ≡ (ok (view w k), w)
  pub writes :
      (k : String) (u : S) (w w' : W) → store.set_state k u w ≡ (ok tt, w') → view w' k ≡ some u

-- The collector counts without a raise and without a change to what `look` sees.
abbrev pub CountsBeside : {W V : Type 0} → (W → V) → MetricsCollector W → Type 0
CountsBeside {W} look m =
    (n : String) (t c : Option String) (w : W)
    → ((m.increment n t c w).0 ≡ ok tt) × (look (m.increment n t c w).1 ≡ look w)

-- What `look` sees has nothing of the metrics and of the clock.
pub record IsBeside {W S V : Type 0} (services : Services W S) (look : W → V) : Type 0 where
  pub clock : (w : W) → look (services.node.perf w).1 ≡ look w
  pub metrics : IfSome (CountsBeside look) services.metrics

module _ {W S V : Type 0} (variant : Variant W S) (services : Services W S) (look : W → V)
    (beside : IsBeside services look) (s : S) where
  open variant.shape use {common}

  counted :
      (o : Option (MetricsCollector W))
      → IfSome (CountsBeside look) o
      → (w : W)
      → (w₁ : W) × (when_some o
            (λ m.
              m.increment "request_count" (some (common s).tenant_id) none
              >> m.increment "workflow_execution_count" none none)
            w
          ≡ (ok tt, w₁))
        × (look w₁ ≡ look w)
  unfolding when_some pure ◌>>=◌
  counted none h w = (w, refl, refl)
  counted (some m) h w =
      let first = m.increment "request_count" (some (common s).tenant_id) none w in
      let (first_ok, first_kept) = h "request_count" (some (common s).tenant_id) none w in
      let second = m.increment "workflow_execution_count" none none first.1 in
      let (second_ok, second_kept) = h "workflow_execution_count" none none first.1 in
      (
        second.1,
        rw (returned first first_ok, returned second second_ok) refl,
        second_kept ∙ first_kept,
      )

  -- A run counts the request, reads the clock, and goes on from there.
  opening :
      (w : W)
      → (start : ℕ) × (w₁ : W) × (run variant services s w
          ≡ catch
              (look_up_or_execute variant services services.store start s)
              (on_failure variant services)
              w₁)
        × (look w₁ ≡ look w)
  unfolding run perf_counter ◌>>=◌
  opening w =
      let (w₁, counts, kept) = counted services.metrics beside.metrics w in
      ((services.node.perf w₁).0, (services.node.perf w₁).1, rw counts refl, beside.clock w₁ ∙ kept)

-- Two looks at once.
abbrev both : {W U V : Type 0} → (W → U) → (W → V) → W → U × V
both view look w = (view w, look w)

beside_both :
    {W S U V : Type 0} {services : Services W S} {view : W → U} {look : W → V}
    → IsBeside services view
    → IsBeside services look
    → IsBeside services (both view look)
beside_both {W} {services} {view} {look} a b = record {
  clock = λ w i. (a.clock w i, b.clock w i);
  metrics = counts services.metrics a.metrics b.metrics;
}
  where
    counts :
        (o : Option (MetricsCollector W))
        → IfSome (CountsBeside view) o
        → IfSome (CountsBeside look) o
        → IfSome (CountsBeside (both view look)) o
    counts none a b = tt
    counts (some m) a b = λ n t c w. ((a n t c w).0, λ i. ((a n t c w).1 i, (b n t c w).1 i))

module _ {W S : Type 0} {variant : Variant W S} {reading : Reading variant.shape}
    (services : Services W S) (acts : NodesAct variant reading services.node)
    (store : WorkflowStateStore W S) (view : W → String → Option S)
    (keeps : IsStateStore store view) (s : S)
    (fresh : (variant.shape.common s).audit_trail ≡ []) where
  open variant.shape use {common}

  abbrev IsKept : S → W → Type 0
  IsKept u w = view w (common s).event_id ≡ some u

  Triple-set_state :
      (u : S)
      → Triple
          (λ _. Unit)
          (when_some (some store) (λ st. st.set_state (common u).event_id u))
          (λ _ w. view w (common u).event_id ≡ some u)
          (λ _ _. Unit)
  unfolding when_some
  Triple-set_state u = record {
    at = λ w p.
        written (store.set_state (common u).event_id u w)
          (λ w' h. keeps.writes (common u).event_id u w w' h);
  }
    where
      written :
          (r : Result (Unit {0}) × W)
          → ((w' : W) → r ≡ (ok tt, w') → view w' (common u).event_id ≡ some u)
          → Outcome (λ _ w. view w (common u).event_id ≡ some u) (λ _ _. Unit) r
      written (ok _, w') h = h w' refl
      written (err e, w') h = tt

  Triple-execute_stored :
      services.store ≡ some store
      → (start : ℕ) → Triple (λ _. Unit) (execute variant services start s) IsKept (λ _ _. Unit)
  Triple-execute_stored has start =
      Triple-weaken
        (Triple-execute acts (Behaves-any variant services) s fresh (λ e k v p. tt) start
          {Q = λ u w. view w (common u).event_id ≡ some u} (λ u. rw has (Triple-set_state u)))
        (λ w p. p)
        (λ u w (stored, decided). ap (λ k. view w k) (sym decided.stage.event_id) ∙ stored)

  Triple-get_state :
      Triple
        (λ _. Unit)
        (store.get_state (common s).event_id)
        (λ o w. view w (common s).event_id ≡ o)
        (λ _ _. Unit)
  Triple-get_state = record { at = λ w p. rw (keeps.reads (common s).event_id w) refl }

  Triple-cached_or :
      services.store ≡ some store
      → (start : ℕ) (o : Option S)
      → Triple
          (λ w. view w (common s).event_id ≡ o)
          (cached_or variant services start s o)
          IsKept
          (λ _ _. Unit)
  Triple-cached_or has start none =
      Triple-weaken (Triple-execute_stored has start) (λ w p. tt) (λ u w kept. kept)
  Triple-cached_or has start (some cached) = Triple-pure cached (λ w seen. seen)

  Triple-looked_up :
      services.store ≡ some store
      → (start : ℕ) (o : Option (WorkflowStateStore W S)) → o ≡ some store
      → Triple (λ _. Unit) (look_up_or_execute variant services o start s) IsKept (λ _ _. Unit)
  unfolding look_up_or_execute
  Triple-looked_up has start o is =
      rw is (Triple-bind Triple-get_state (Triple-cached_or has start))

  Triple-on_failure :
      (e : Error) → Triple (λ _. Unit) (on_failure variant services e) IsKept (λ _ _. Unit)
  unfolding on_failure
  Triple-on_failure e = Triple-bind (Triple-any _) λ _. Triple-throw e (λ w p. tt)

  -- After a run that returned, the store has the state under the event.
  Triple-run :
      services.store ≡ some store → Triple (λ _. Unit) (run variant services s) IsKept (λ _ _. Unit)
  unfolding run
  Triple-run has =
      Triple-bind
        (Triple-any (
          when_some services.metrics (λ m.
            m.increment "request_count" (some (common s).tenant_id) none
            >> m.increment "workflow_execution_count" none none)))
        λ _.
          Triple-bind (Triple-any (perf_counter services.node))
            λ start. Triple-catch (Triple-looked_up has start services.store has) Triple-on_failure

  -- A later look under the event finds it and ends there.
  replayed :
      (start : ℕ) (again out : S) (w : W) (o : Option (WorkflowStateStore W S))
      → o ≡ some store
      → (common again).event_id ≡ (common s).event_id
      → IsKept out w
      → catch (look_up_or_execute variant services o start again) (on_failure variant services) w
        ≡ (ok out, w)
  unfolding look_up_or_execute catch pure ◌>>=◌
  replayed start again out w o is same kept =
      rw (is, keeps.reads (common again).event_id w, ap (λ k. view w k) same ∙ kept) refl

-- An event that was decided is not decided anew. With a store that keeps what is written to it and
-- that neither the metrics nor the clock change, and metrics that do not raise: after a run on an
-- event that no node had seen, whether it was answered from the store or not, a run on any state with
-- the same event id returns the state of the first, and changes nothing that the metrics and the
-- clock do not change, as the audit log, the store and the costs: no node runs.
pub run_replays :
    {W S V : Type 0} {variant : Variant W S} {reading : Reading variant.shape}
    (services : Services W S) (acts : NodesAct variant reading services.node)
    (store : WorkflowStateStore W S) (view : W → String → Option S) (look : W → V)
    (keeps : IsStateStore store view) (view_beside : IsBeside services view)
    (beside : IsBeside services look) (s again : S) (w w' : W) (out : S)
    → services.store ≡ some store
    → (variant.shape.common s).audit_trail ≡ []
    → (variant.shape.common again).event_id ≡ (variant.shape.common s).event_id
    → run variant services s w ≡ (ok out, w')
    → (w'' : W) × (run variant services again w' ≡ (ok out, w'')) × (look w'' ≡ look w')
run_replays {variant} services acts store view look keeps view_beside beside s again w w' out has
      fresh same h =
    let kept = Triple-ok (Triple-run services acts store view keeps s fresh has) w w' out tt h in
    let (start, w'', opens, left) =
      opening variant services (both view look) (beside_both view_beside beside) again w' in
    (
      w'',
      opens
          ∙ replayed services acts store view keeps s fresh start again out w'' services.store has
              same (ap (λ v. v.0 (variant.shape.common s).event_id) left ∙ kept),
      ap (λ v. v.1) left,
    )
