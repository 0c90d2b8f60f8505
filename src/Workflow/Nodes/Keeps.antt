-- ===== src/Workflow/Nodes/Keeps.antt =====
-- What the nodes leave alone: everything that the audit log and the clocks do not change.
use ai_risk_engine.Exec.Keeps.{Keeps, Keeps-pure, Keeps-lift, Keeps-bind}
use ai_risk_engine.Governance.Audit.{AuditRecord, utc_now, log_action}
use ai_risk_engine.Json.{Fields}
use ai_risk_engine.Prelude.{ℕ, ◌≡◌, String}
use ai_risk_engine.Workflow.Nodes.{
  NodeServices, perf_counter, finish_node, retrieve_context, validate_policy, score_risk,
  apply_guardrails, make_decision,
}
use ai_risk_engine.Workflow.State.{RiskState}

pub record NodeKeeps {W V : Type 0} (services : NodeServices W) (look : W → V) : Type 0 where
  pub perf_keeps : (w : W) → look (services.perf w).1 ≡ look w
  pub now_keeps : (w : W) → look (services.audit.now w).1 ≡ look w
  pub save_keeps : (r : AuditRecord) → Keeps look (services.audit.save r)

module _ {W V : Type 0} {services : NodeServices W} {look : W → V}
    (h : NodeKeeps services look) where
  pub Keeps-perf_counter : Keeps look (perf_counter services)
  unfolding perf_counter
  Keeps-perf_counter = record { at = h.perf_keeps }

  Keeps-utc_now : Keeps look (utc_now services.audit)
  unfolding utc_now
  Keeps-utc_now = record { at = h.now_keeps }

  pub Keeps-log_action : (r : AuditRecord) → Keeps look (log_action services.audit r)
  unfolding log_action
  Keeps-log_action r =
      Keeps-bind Keeps-utc_now λ time. h.save_keeps (record r { timestamp_utc = time })

  pub Keeps-finish_node :
      (node action reason : String) (more : Fields) (start : ℕ) (s : RiskState)
      → Keeps look (finish_node services node action reason more start s)
  unfolding finish_node
  Keeps-finish_node node action reason more start s =
      Keeps-bind Keeps-perf_counter
        λ end_time. Keeps-bind Keeps-utc_now λ at. Keeps-bind (Keeps-log_action _) λ _. Keeps-pure _

  pub Keeps-retrieve_context : (s : RiskState) → Keeps look (retrieve_context services s)
  unfolding retrieve_context
  Keeps-retrieve_context s =
      Keeps-bind Keeps-perf_counter
        λ start. Keeps-bind (Keeps-finish_node _ _ _ _ start s) λ trail. Keeps-pure _

  pub Keeps-validate_policy : (s : RiskState) → Keeps look (validate_policy services s)
  unfolding validate_policy
  Keeps-validate_policy s = Keeps-bind Keeps-perf_counter λ start.
      Keeps-bind (Keeps-lift _)
        λ result. Keeps-bind (Keeps-finish_node _ _ _ _ start s) λ trail. Keeps-pure _

  pub Keeps-score_risk : (s : RiskState) → Keeps look (score_risk services s)
  unfolding score_risk
  Keeps-score_risk s = Keeps-bind Keeps-perf_counter λ start.
      Keeps-bind (Keeps-lift _)
        λ score. Keeps-bind (Keeps-finish_node _ _ _ _ start s) λ trail. Keeps-pure _

  pub Keeps-apply_guardrails : (s : RiskState) → Keeps look (apply_guardrails services s)
  unfolding apply_guardrails
  Keeps-apply_guardrails s = Keeps-bind Keeps-perf_counter λ start.
      Keeps-bind (Keeps-lift _)
        λ result. Keeps-bind (Keeps-finish_node _ _ _ _ start s) λ trail. Keeps-pure _

  pub Keeps-make_decision : (s : RiskState) → Keeps look (make_decision services s)
  unfolding make_decision
  Keeps-make_decision s =
      Keeps-bind Keeps-perf_counter
        λ start. Keeps-bind (Keeps-finish_node _ _ _ _ start s) λ trail. Keeps-pure _
