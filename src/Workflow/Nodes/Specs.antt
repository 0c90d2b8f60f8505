-- ===== src/Workflow/Nodes/Specs.antt =====
-- What each node of the workflow does to the state, for surroundings that keep a condition `P` and
-- raise only under `E`.
use ai_risk_engine.Errors.{Error}
use ai_risk_engine.Exec.{ok, err}
use ai_risk_engine.Exec.Triple.{Triple, Triple-pure, Triple-bind, Triple-bind-lift}
use ai_risk_engine.Governance.Audit.{AuditRecord, utc_now, log_action}
use ai_risk_engine.Json.{Fields, str, get}
use ai_risk_engine.Prelude.{ℕ, ◌≡◌, refl, String, some, List, [], ◌∷◌, ◌++◌}
use ai_risk_engine.Prelude.Int.{ℤ}
use ai_risk_engine.Workflow.Nodes.{
  NodeServices, policy_of, score_of, guardrail_of, decision_of, node_details, node_record,
  trail_entry, perf_counter, finish_node, retrieve_context, validate_policy, score_risk,
  apply_guardrails, make_decision,
}
use ai_risk_engine.Workflow.State.{RiskState}

-- The surroundings keep `P`, and raise only if `E` then holds.
pub record NodeBehaves {W : Type 0} (services : NodeServices W) (P : W → Type 0)
    (E : Error → W → Type 0) : Type 0 where
  pub perf_keeps : (w : W) → P w → P (services.perf w).1
  pub now_keeps : (w : W) → P w → P (services.audit.now w).1
  pub audit_keeps : (r : AuditRecord) → Triple P (services.audit.save r) (λ _ w. P w) E

-- One more entry of the node in the trail.
abbrev pub Logged : String → List Fields → List Fields → Type 0
Logged node before trail =
    (entry : Fields) × (get "node" entry ≡ some (str node)) × (trail ≡ before ++ entry ∷ [])

module _ {W : Type 0} {services : NodeServices W} {P : W → Type 0} {E : Error → W → Type 0}
    (behaves : NodeBehaves services P E) where
  pub Triple-perf_counter : Triple P (perf_counter services) (λ _ w. P w) E
  unfolding perf_counter
  Triple-perf_counter = record { at = behaves.perf_keeps }

  pub Triple-utc_now : Triple P (utc_now services.audit) (λ _ w. P w) E
  unfolding utc_now
  Triple-utc_now = record { at = behaves.now_keeps }

  pub Triple-log_action : (r : AuditRecord) → Triple P (log_action services.audit r) (λ _ w. P w) E
  unfolding log_action
  Triple-log_action r =
      Triple-bind Triple-utc_now (λ time. behaves.audit_keeps (record r { timestamp_utc = time }))

  pub Triple-finish_node :
      (node action reason : String) (more : Fields) (start : ℕ) (s : RiskState)
      → Triple P
          (finish_node services node action reason more start s)
          (λ trail w. P w × Logged node s.audit_trail trail)
          E
  unfolding finish_node get
  Triple-finish_node node action reason more start s = Triple-bind Triple-perf_counter λ end_time.
      let details = node_details (services.elapsed_ms start end_time) more s in
      Triple-bind Triple-utc_now λ at.
        Triple-bind (Triple-log_action (node_record action reason details s)) λ _.
          Triple-pure (s.audit_trail ++ trail_entry node action at details ∷ [])
            (λ w p. (p, (trail_entry node action at details, refl, refl)))

  pub Triple-retrieve_context :
      (s : RiskState)
      → Triple P
          (retrieve_context services s)
          (λ u w.
            P w
            × ((c : String) × (t : List Fields) × Logged "retrieval" s.audit_trail t
                × (u ≡ record s { retrieved_context = some c; audit_trail = t })))
          E
  unfolding retrieve_context
  Triple-retrieve_context s = Triple-bind Triple-perf_counter λ start.
      Triple-bind (Triple-finish_node _ _ _ _ _ _)
        λ trail. Triple-pure _ (λ w p. (p.0, (_, trail, p.1, refl)))

  pub Triple-validate_policy :
      (s : RiskState)
      → ((e : Error) → policy_of s.raw_event ≡ err e → (w : W) → P w → E e w)
      → Triple P
          (validate_policy services s)
          (λ u w.
            P w
            × ((x : String) × (t : List Fields) × Logged "policy_validation" s.audit_trail t
                × (policy_of s.raw_event ≡ ok x)
                × (u ≡ record s { policy_result = some x; audit_trail = t })))
          E
  unfolding validate_policy
  Triple-validate_policy s bad = Triple-bind Triple-perf_counter λ start.
      Triple-bind-lift (policy_of s.raw_event) _ bad λ x passed.
        Triple-bind (Triple-finish_node _ _ _ _ _ _)
          λ trail. Triple-pure _ (λ w p. (p.0, (x, trail, p.1, passed, refl)))

  pub Triple-score_risk :
      (s : RiskState)
      → ((e : Error) → score_of s.raw_event ≡ err e → (w : W) → P w → E e w)
      → Triple P
          (score_risk services s)
          (λ u w.
            P w
            × ((x : ℤ) × (t : List Fields) × Logged "risk_scoring" s.audit_trail t
                × (score_of s.raw_event ≡ ok x)
                × (u ≡ record s { risk_score = some x; audit_trail = t })))
          E
  unfolding score_risk
  Triple-score_risk s bad = Triple-bind Triple-perf_counter λ start.
      Triple-bind-lift (score_of s.raw_event) _ bad λ x passed.
        Triple-bind (Triple-finish_node _ _ _ _ _ _)
          λ trail. Triple-pure _ (λ w p. (p.0, (x, trail, p.1, passed, refl)))

  pub Triple-apply_guardrails :
      (s : RiskState)
      → ((e : Error) → guardrail_of s.raw_event s.risk_score ≡ err e → (w : W) → P w → E e w)
      → Triple P
          (apply_guardrails services s)
          (λ u w.
            P w
            × ((x : String) × (t : List Fields) × Logged "guardrails" s.audit_trail t
                × (guardrail_of s.raw_event s.risk_score ≡ ok x)
                × (u ≡ record s { guardrail_result = some x; audit_trail = t })))
          E
  unfolding apply_guardrails
  Triple-apply_guardrails s bad = Triple-bind Triple-perf_counter λ start.
      Triple-bind-lift (guardrail_of s.raw_event s.risk_score) _ bad λ x passed.
        Triple-bind (Triple-finish_node _ _ _ _ _ _)
          λ trail. Triple-pure _ (λ w p. (p.0, (x, trail, p.1, passed, refl)))

  pub Triple-make_decision :
      (s : RiskState)
      → Triple P
          (make_decision services s)
          (λ u w.
            P w
            × ((t : List Fields) × Logged "decision" s.audit_trail t
                × (u ≡ record s {
                  final_decision =
                      some (decision_of s.policy_result s.risk_score s.guardrail_result);
                  audit_trail = t;
                })))
          E
  unfolding make_decision
  Triple-make_decision s = Triple-bind Triple-perf_counter λ start.
      Triple-bind (Triple-finish_node _ _ _ _ _ _)
        λ trail. Triple-pure _ (λ w p. (p.0, (trail, p.1, refl)))
