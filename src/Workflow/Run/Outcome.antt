-- ===== src/Workflow/Run/Outcome.antt =====
-- What a caller of a workflow gets.
use ai_risk_engine.Errors.{Error, model_not_approved_error, prompt_not_approved_error}
use ai_risk_engine.Exec.{Exec, Result, ok, err, when_some}
use ai_risk_engine.Exec.Triple.{
  Outcome, Triple, Triple-ok, Triple-bind, Triple-if, Triple-throw, Triple-catch, Triple-given,
  Triple-any, Triple-when_some, IfSome,
}
use ai_risk_engine.Json.{Fields}
use ai_risk_engine.Observability.Failures.{isinstance}
use ai_risk_engine.Prelude.{ℕ, ◌≡◌, refl, Option, none, some, [], ◌∷◌, arith}
use ai_risk_engine.Workflow.Nodes.{metadata_of}
use ai_risk_engine.Workflow.Nodes.Specs.{Triple-perf_counter}
use ai_risk_engine.Workflow.Run.{execute, look_up_or_execute, run}
use ai_risk_engine.Workflow.Variant.{Shape, Variant}
use ai_risk_engine.Workflow.Versions.{on_governance_error}
use ai_risk_engine.Workflow.Run.Contract.{Reading, NodesAct}
use ai_risk_engine.Workflow.Run.Correct.{IsDecided}
use ai_risk_engine.Workflow.Run.Steps.{Triple-execute}
use ai_risk_engine.Workflow.Run.Specs.{Behaves}
use ai_risk_engine.Workflow.Services.{Services, WorkflowStateStore}

abbrev Any {ℓ} : {A : Type ℓ} → {S : Type ℓ} → A → S → Type ℓ
Any a s = Unit

IfSome-all : {K : Type 0} (H : K → Type 0) → ((k : K) → H k) → (o : Option K) → IfSome H o
IfSome-all H h none = tt
IfSome-all H h (some k) = h k

Triple-on_governance_error :
    {W S : Type 0} (variant : Variant W S) (services : Services W S) (s : S) (e : Error)
    → Triple (λ _. Unit) (on_governance_error variant services s e) (λ _ _. ⊥) (λ _ _. Unit)
unfolding on_governance_error
Triple-on_governance_error variant services s e =
    Triple-if (isinstance e.cls (model_not_approved_error ∷ prompt_not_approved_error ∷ [])) _ _
      (λ _. Triple-bind (Triple-any _) λ _. Triple-throw e (λ w p. tt))
      (λ _. Triple-throw e (λ w p. tt))

-- Collaborators of which nothing is known.
pub Behaves-any :
    {W S : Type 0} (variant : Variant W S) (services : Services W S)
    → Behaves variant services (λ _. Unit) (λ _ _. Unit)
Behaves-any variant services = record {
  node = record { perf_keeps = λ w p. tt; now_keeps = λ w p. tt; audit_keeps = λ r. Triple-any _ };
  models = IfSome-all _ (λ r. Triple-any _) services.models;
  prompts = IfSome-all _ (λ r. Triple-any _) services.prompts;
  governance = Triple-on_governance_error variant services;
  metrics = IfSome-all _ (λ m. ((λ n t c. Triple-any _), (λ n x l. Triple-any _))) services.metrics;
  tracing =
      IfSome-all _ (λ t. ((λ n a. Triple-any _), (λ s. Triple-any _), (λ s e. Triple-any _)))
        services.tracing;
  costs = IfSome-all _ (λ c t x m r. Triple-any _) services.cost;
  generations = IfSome-all _ (λ l g. Triple-any _) services.langfuse;
  evaluations = IfSome-all _ (λ v d. Triple-any _) services.evaluation;
}

-- Whatever its collaborators do or raise: a run on an event that no node has seen returns nothing
-- but a decided state.
pub execute-IsDecided :
    {W S : Type 0} {variant : Variant W S} {reading : Reading variant.shape}
    (services : Services W S) (acts : NodesAct variant reading services.node) (start : ℕ) (s : S)
    (w w' : W) (out : S)
    → (variant.shape.common s).audit_trail ≡ []
    → execute variant services start s w ≡ (ok out, w')
    → IsDecided reading s out
execute-IsDecided {variant} services acts start s w w' out fresh h =
    (Triple-ok
      (Triple-execute acts (Behaves-any variant services) s fresh (λ e k v p. tt) start
        (λ u. Triple-any _))
      w w' out tt h).1

-- What a triple without a raise says: the run returns.
Triple-returns :
    {W A : Type 0} {P : W → Type 0} {m : Exec W A} {Q : A → W → Type 0}
    (t : Triple P m Q (λ _ _. ⊥)) (w : W)
    → P w
    → (a : A) × (w' : W) × (m w ≡ (ok a, w')) × Q a w'
Triple-returns {W} {A} {m} {Q} t w p = returns (m w) (t.at w p)
  where
    returns :
        (r : Result A × W) → Outcome Q (λ _ _. ⊥) r → (a : A) × (w' : W) × (r ≡ (ok a, w')) × Q a w'
    returns (ok a, w') q = (a, w', refl, q)
    returns (err e, w') never = absurd never

module _ {W S : Type 0} (shape : Shape S) where
  open shape use {common}

  -- The store has nothing for the event.
  abbrev pub Misses : (W → Type 0) → S → WorkflowStateStore W S → Type 0
  Misses P s store =
      Triple P (store.get_state (common s).event_id) (λ o w. P w × (o ≡ none)) (λ _ _. ⊥)

  -- What holds of the world once the final state was stored, if there is a store.
  abbrev pub Stores : Services W S → (W → Type 0) → (W → Type 0) → Type 0
  Stores services P Q =
      (u : S)
      → Triple P (when_some services.store (λ st. st.set_state (common u).event_id u)) (λ _ w. Q w)
          (λ _ _. ⊥)

module _ {W S : Type 0} {variant : Variant W S} {reading : Reading variant.shape}
    {services : Services W S} {P Q : W → Type 0} (acts : NodesAct variant reading services.node)
    (behaves : Behaves variant services P (λ _ _. ⊥)) (stores : Stores variant.shape services P Q)
    (s : S) (fresh : (variant.shape.common s).audit_trail ≡ []) (m : Fields)
    (well : metadata_of (variant.shape.common s).raw_event ≡ ok m) where
  Triple-execute_total :
      (start : ℕ)
      → Triple P (execute variant services start s) (λ u w. Q w × IsDecided reading s u) (λ _ _. ⊥)
  Triple-execute_total start =
      Triple-execute acts behaves s fresh (λ e h w p. ground (arith, h, well)) start stores

  Triple-look_up :
      (o : Option (WorkflowStateStore W S)) (start : ℕ)
      → IfSome (Misses variant.shape P s) o
      → Triple P
          (look_up_or_execute variant services o start s)
          (λ u w. Q w × IsDecided reading s u)
          (λ _ _. ⊥)
  unfolding look_up_or_execute
  Triple-look_up none start miss = Triple-execute_total start
  Triple-look_up (some st) start miss =
      Triple-bind miss λ o. Triple-given λ absent. rw absent (Triple-execute_total start)

  Triple-run :
      IfSome (Misses variant.shape P s) services.store
      → Triple P (run variant services s) (λ u w. Q w × IsDecided reading s u) (λ _ _. ⊥)
  unfolding run
  Triple-run miss =
      Triple-bind
        (Triple-when_some services.metrics _ behaves.metrics
          (λ k keeps. Triple-bind (keeps.0 _ _ _) λ _. keeps.0 _ _ _))
        λ _. Triple-bind (Triple-perf_counter behaves.node) λ start.
          Triple-catch (Triple-look_up services.store start miss)
            (λ e. record { at = λ w never. absurd never })

  -- With collaborators that do not raise, a new event is always decided.
  pub completes_if_kept :
      (w : W)
      → P w
      → IfSome (Misses variant.shape P s) services.store
      → (out : S) × (w' : W) × (run variant services s w ≡ (ok out, w'))
        × Q w'
        × IsDecided reading s out
  completes_if_kept w p miss =
      let (out, w', returned, q) = Triple-returns (Triple-run miss) w p in
      (out, w', returned, q.0, q.1)
