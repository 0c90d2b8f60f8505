-- ===== src/Workflow/Risk/Outcome.antt =====
-- What a caller of the risk workflow gets.
use ai_risk_engine.Exec.{Exec, ok}
use ai_risk_engine.Exec.Triple.{Triple-weaken, IfSome}
use ai_risk_engine.Json.{Fields}
use ai_risk_engine.Prelude.{ℕ, ◌≡◌, refl, false, []}
use ai_risk_engine.Workflow.Nodes.{NodeServices, metadata_of}
use ai_risk_engine.Workflow.Nodes.Specs.{Triple-make_decision}
use ai_risk_engine.Workflow.Risk.{risk_shape, risk_variant, execute, run}
use ai_risk_engine.Workflow.Run.Contract.{Reading, NodesAct, OnCommon}
use ai_risk_engine.Workflow.Run.Correct as Correct
use ai_risk_engine.Workflow.Run.Outcome as Outcome
use ai_risk_engine.Workflow.Run.Outcome.{Misses, Stores}
use ai_risk_engine.Workflow.Run.Specs.{Behaves}
use ai_risk_engine.Workflow.Services.{Services}
use ai_risk_engine.Workflow.State.{RiskState}

-- A risk state has no fields but the common ones, and never escalates on its own.
abbrev risk_reading : Reading risk_shape
risk_reading = record {
  escalates = λ s. false;
  Agrees = λ s. Unit;
  common-with_common = λ s r. refl;
  escalates-with_common = λ s r. refl;
  Agrees-with_common = λ s r same agrees. tt;
}

module _ {W : Type 0} (services : NodeServices W) where
  on_common : (f : RiskState → Exec W RiskState) → OnCommon risk_reading f f
  on_common f P F E v t = Triple-weaken t (λ w p. p) (λ u w q. (q.0, (q.1, refl)))

  pub risk-NodesAct : NodesAct risk_variant risk_reading services
  risk-NodesAct = record {
    retrieval = on_common _;
    policy_validation = on_common _;
    risk_scoring = on_common _;
    guardrails = on_common _;
    decision = λ P E v behaves.
        Triple-weaken (Triple-make_decision behaves v) (λ w p. p)
          (λ u w (p, (t, logged, is_u)).
            (p, record { trail = t; logged = logged; decided = is_u; same = refl; agrees = tt }));
  }

-- `u` is the event of `s` decided: see `IsDecided` of Workflow/Run/Correct.
abbrev pub IsDecided : RiskState → RiskState → Type 0
IsDecided s u = Correct.IsDecided risk_reading s u

-- The result of the workflow on an event that no node has seen, whatever its collaborators do or
-- raise: if the run returns a state, then it is for the same event, the five nodes ran once each and
-- in order, the score lies from 0 to 100, and the decision is to require approval exactly if the
-- policy is overridden, the category is sensitive, a blocked pattern is reported or the event is
-- high risk, else to approve.
pub execute_decides :
    {W : Type 0} (services : Services W RiskState) (start : ℕ) (s : RiskState) (w w' : W)
    (out : RiskState)
    → s.audit_trail ≡ []
    → execute services start s w ≡ (ok out, w')
    → IsDecided s out
execute_decides services = Outcome.execute-IsDecided services (risk-NodesAct services.node)

-- A new event is always decided: if the metadata are a dictionary (or absent), the store has
-- nothing for the event, the collaborators neither raise in a world in which `P` holds nor end `P`,
-- and storing a state leads from `P` to `Q` without a raise, then the workflow returns a state from
-- every world in which `P` holds, that state is decided, and `Q` holds after it.
pub run_completes :
    {W : Type 0} {services : Services W RiskState} {P Q : W → Type 0}
    (behaves : Behaves risk_variant services P (λ _ _. ⊥)) (stores : Stores risk_shape services P Q)
    (s : RiskState) (fresh : s.audit_trail ≡ []) (m : Fields)
    (well : metadata_of s.raw_event ≡ ok m) (w : W)
    → P w
    → IfSome (Misses risk_shape P s) services.store
    → (out : RiskState) × (w' : W) × (run services s w ≡ (ok out, w')) × Q w' × IsDecided s out
run_completes {services} = Outcome.completes_if_kept (risk-NodesAct services.node)
