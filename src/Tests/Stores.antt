-- ===== src/Tests/Stores.antt =====
-- Witnesses for the theorems on the store of workflow states, over a cache that is a dictionary.
use Prim.Native.String.{◌++◌, count}
use text.Mathlib.TextLemmas.{length-append}
use ai_risk_engine.Application.EventService.{Cache}
use ai_risk_engine.Exec.{ok, pure, lift, ◌>>=◌}
use ai_risk_engine.Json.{end}
use ai_risk_engine.Prelude.{
  ◌≡◌, refl, ap, ◌≢◌, arith, String, Option, none, some, true, List, [], ◌∷◌, Table, lookup, insert,
  lookup-insert,
}
use ai_risk_engine.Workflow.Compliance.{ComplianceState}
use ai_risk_engine.Workflow.RedisStore.{
  RedisWorkflowStateStore, key, compliance_key, get_risk_state, get_compliance_state,
}
use ai_risk_engine.Workflow.RedisStore.Refinement.{
  IsTextMap, Write, risk, compliance, perform_all, perform_all-refines,
}
use ai_risk_engine.Workflow.State.{RiskState}

abbrev pub dictionary : Cache (Table String)
dictionary = record {
  get_cache = λ k w. (ok (lookup k w), w);
  set_cache = λ k v t w. (ok tt, insert k v w);
}

abbrev pub stored_text : Table String → String → Option String
stored_text w k = lookup k w

pub dictionary-IsTextMap : IsTextMap dictionary stored_text
dictionary-IsTextMap = record {
  get_reads = λ k w. refl;
  set_ok = λ k v t w. refl;
  set_view = λ k v t w asked. lookup-insert w asked k v;
}

abbrev risk_state : RiskState
risk_state = record {
  event_id = "e1";
  tenant_id = "t1";
  correlation_id = "c1";
  raw_event = end;
  retrieved_context = none;
  policy_result = some "PASS";
  risk_score = none;
  guardrail_result = some "OK";
  final_decision = some "APPROVED";
  model_version = "simulated@1";
  prompt_version = 1;
  audit_trail = [];
  idempotency_key = none;
  evaluation_result = none;
}

abbrev compliance_state : ComplianceState
compliance_state = record {
  common = risk_state;
  regulatory_flags = "gdpr" ∷ [];
  approval_required = true;
}

abbrev redis_store : RedisWorkflowStateStore (Table String)
redis_store = record {
  redis = dictionary;
  prefix = "workflow";
  dump_risk = λ s. "{risk}";
  load_risk = λ t. ok risk_state;
  dump_compliance = λ s. "{compliance}";
  load_compliance = λ t. ok compliance_state;
}

abbrev writes : List Write
writes =
    compliance "e1" compliance_state ∷ risk "e1" risk_state ∷ compliance "e2" compliance_state ∷ []

e1_is_plain : (rest : String) → "e1" ≢ "compliance:" ++ rest
e1_is_plain rest h = absurd (omega (arith, ap count h, length-append "compliance:" rest))

nothing_stored : get_risk_state redis_store "e1" [] ≡ (ok none, [])
unfolding get_risk_state key lookup pure lift ◌>>=◌
nothing_stored = refl

nothing_checked : get_compliance_state redis_store "e1" [] ≡ (ok none, [])
unfolding get_compliance_state compliance_key lookup pure lift ◌>>=◌
nothing_checked = refl

perform_all-refines_example :
    (let w' = (perform_all redis_store writes []).1 in
      (perform_all redis_store writes [] ≡ (ok tt, w'))
      × (get_risk_state redis_store "e1" w' ≡ (ok (some risk_state), w'))
      × (get_compliance_state redis_store "e1" w' ≡ (ok (some compliance_state), w')))
perform_all-refines_example =
    perform_all-refines redis_store dictionary-IsTextMap writes "e1" none none []
      (refl, ((e1_is_plain, refl), (refl, tt))) e1_is_plain nothing_stored nothing_checked
